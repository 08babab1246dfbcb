-- ===== src/Worker/Upload/Chunks.antt =====
-- `_writeBitstream` of UploadState.py (src/icefarm/worker/device/state/core) writes a bitstream to the
-- serial port in chunks of `CHUNK_SIZE` bytes.
use i_cefarm.Prelude.{
  ℕ, zero, suc, ◌+◌, ◌-◌, ◌*◌, ◌/◌, ◌≤◌, ◌≡◌, refl, sym, ◌∙◌, ap, List, [], ◌∷◌, ◌++◌, arith,
  length, take, drop, take-append-drop, length-take, All,
}
use i_cefarm.Worker.Upload.{Bytes}

abbrev pub chunk_size : ℕ
chunk_size = 512

-- `for i in range(0, data_len, CHUNK_SIZE)`, with the rounds that are left; what is written.
unfoldable pub write_chunks : ℕ → ℕ → Bytes → List Bytes
write_chunks zero i contents = []
write_chunks (suc rounds) i contents =
    take chunk_size (drop i contents) ∷ write_chunks rounds (i + chunk_size) contents

-- A range of step s below n has (n + s - 1) / s values.
unfoldable pub write_bitstream : Bytes → List Bytes
unfolding write_chunks
write_bitstream contents =
    write_chunks ((length contents + (chunk_size - 1)) / chunk_size) 0 contents

abbrev pub concat {ℓ} : {A : Type ℓ} → List (List A) → List A
concat [] = []
concat (xs ∷ xss) = xs ++ concat xss

drop_of_length-le {ℓ} : {A : Type ℓ} (n : ℕ) (xs : List A) → length xs ≤ n → drop n xs ≡ []
drop_of_length-le zero [] h = refl
drop_of_length-le zero (x ∷ xs) h = absurd (omega arith)
drop_of_length-le (suc n) [] h = refl
drop_of_length-le (suc n) (x ∷ xs) h = drop_of_length-le n xs (omega arith)

drop-drop {ℓ} : {A : Type ℓ} (n m : ℕ) (xs : List A) → drop n (drop m xs) ≡ drop (m + n) xs
drop-drop n zero xs = ap (λ k. drop k xs) (omega arith)
drop-drop n (suc m) [] =
    drop_of_length-le n [] (omega arith) ∙ sym (drop_of_length-le (suc m + n) [] (omega arith))
drop-drop n (suc m) (x ∷ xs) =
    let same : suc (m + n) ≡ suc m + n = omega arith in
    drop-drop n m xs ∙ ap (λ k. drop k (x ∷ xs)) same

concat-write_chunks :
    (rounds i : ℕ) (contents : Bytes)
    → length contents ≤ i + rounds * chunk_size
    → concat (write_chunks rounds i contents) ≡ drop i contents
unfolding write_chunks
concat-write_chunks zero i contents h = sym (drop_of_length-le i contents (omega arith))
concat-write_chunks (suc rounds) i contents h =
    ap (λ l. take chunk_size (drop i contents) ++ l)
      (concat-write_chunks rounds (i + chunk_size) contents (omega arith)
        ∙ sym (drop-drop chunk_size i contents))
    ∙ take-append-drop chunk_size (drop i contents)

fits-write_chunks :
    (rounds i : ℕ) (contents : Bytes)
    → All (λ chunk. length chunk ≤ chunk_size) (write_chunks rounds i contents)
unfolding write_chunks
fits-write_chunks zero i contents = tt
fits-write_chunks (suc rounds) i contents = (
  omega (arith, length-take chunk_size (drop i contents)),
  fits-write_chunks rounds (i + chunk_size) contents,
)

-- The chunks that are written are, one after the other, the bytes of the file, and none is longer than
-- `CHUNK_SIZE`.
write_bitstream_lem :
    (contents : Bytes)
    → (concat (write_bitstream contents) ≡ contents)
      × All (λ chunk. length chunk ≤ chunk_size) (write_bitstream contents)
unfolding write_bitstream
write_bitstream_lem contents =
    let rounds = (length contents + (chunk_size - 1)) / chunk_size in
    (concat-write_chunks rounds 0 contents (omega arith), fits-write_chunks rounds 0 contents)
