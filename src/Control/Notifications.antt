-- ===== src/Control/Notifications.antt =====
-- `_sendReservationNotifications` of src/icefarm/control/Control.py: a thread for each row, whose closure
-- reads the loop's variable `row` when it runs, and not when it is made.
use i_cefarm.Prelude.{
  ℕ, suc, ◌≤◌, ◌≡◌, refl, String, List, [], ◌∷◌, arith, Option, none, some, length,
}
use i_cefarm.Utils.Loops.{value_after, last, value_after-zero, value_after-eq-last}
use i_cefarm.Control.Commands.{Reply, value, failure}

pub record Row : Type 0 where
  pub ip : String
  pub serverport : String
  pub serial : String

-- How many rows the loop has gone on by when a thread reads each of the three fields.
pub record Delays : Type 0 where
  pub to_ip : ℕ
  pub to_port : ℕ
  pub to_serial : ℕ

-- The requests that the threads send, with the delays of the n-th thread.
unfoldable pub send_notifications : (ℕ → Delays) → ℕ → List Row → List Row
send_notifications delays n [] = []
send_notifications delays n (row ∷ rows) =
    let sent : Row = record {
      ip = (value_after (delays n).to_ip row rows).ip;
      serverport = (value_after (delays n).to_port row rows).serverport;
      serial = (value_after (delays n).to_serial row rows).serial;
    } in
    sent ∷ send_notifications delays (suc n) rows

-- `reserve` and `reserveSerials`
unfoldable pub reserve : (ℕ → Delays) → Option (List Row) → Reply (List Row) × List Row
reserve delays none = (failure, [])
reserve delays (some rows) = (value rows, send_notifications delays 0 rows)

abbrev pub at_once : ℕ → Delays
at_once n = record { to_ip = 0; to_port = 0; to_serial = 0 }

-- If each thread runs before the loop goes on, exactly the reserved devices are announced.
send_notifications-at_once : (n : ℕ) (rows : List Row) → send_notifications at_once n rows ≡ rows
unfolding send_notifications
send_notifications-at_once n [] = refl
send_notifications-at_once n (row ∷ rows) =
    rw (value_after-zero row rows, send_notifications-at_once (suc n) rows) refl

abbrev pub repeat : List Row → Row → List Row
repeat [] row = []
repeat (first ∷ rows) row = row ∷ repeat rows row

-- If the loop is through before any thread runs, every thread announces the last device, and the workers
-- of the others never hear of their reservation.
send_notifications_late :
    (k n : ℕ) (row : Row) (rows : List Row)
    → length rows ≤ k
    → send_notifications (λ i. record { to_ip = k; to_port = k; to_serial = k }) n (row ∷ rows)
      ≡ repeat (row ∷ rows) (last row rows)
unfolding send_notifications
send_notifications_late k n row [] h = rw (value_after-eq-last k row [] h) refl
send_notifications_late k n row (next ∷ rows) h =
    rw
      (
        value_after-eq-last k row (next ∷ rows) h,
        send_notifications_late k (suc n) next rows (omega arith),
      )
      refl
