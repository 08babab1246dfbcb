-- ===== src/Client/Connections/Forgotten.antt =====
-- What the client keeps of its devices after the calls of `end` and `endAll` in src/icefarm/client/lib/BaseAPI.py.
use i_cefarm.Prelude.{
  ◌≡◌, refl, String, Bool, true, false, ◌&&◌, none, some, List, [], ◌∷◌, contains, string_key, ◌==◌,
  if◌then◌else◌, arith, ==_iff,
}
use i_cefarm.Dict.{get, get-remove}
use i_cefarm.Client.Connections
use i_cefarm.Client.Connections.{
  Client, ConnectionInfo, remove_serial, remove_serials, disconnect_worker,
}

module _ {D : Type 0} (url : ConnectionInfo → String) (device : String) where
  get-remove_serial :
      (serial : String) (c : Client D)
      → get device (remove_serial url serial c).connection_info
        ≡ (if serial == device then none else get device c.connection_info)
  unfolding remove_serial disconnect_worker
  get-remove_serial serial c = ground (arith, get-remove serial device c.connection_info)

  get-remove_serials :
      (serials : List String) (c : Client D)
      → get device (remove_serials url serials c).connection_info
        ≡ (if contains device serials then none else get device c.connection_info)
  unfolding remove_serials
  get-remove_serials [] c = refl
  get-remove_serials (serial ∷ serials) c = ground (
    arith,
    get-remove_serials serials (remove_serial url serial c),
    get-remove_serial serial c,
    ==_iff serial device,
    ==_iff device serial,
  )

-- What the client makes of the serials, if it is told.
pub end-told :
    {D : Type 0} (url : ConnectionInfo → String) (told : Bool) (ids : List String) (c : Client D)
    → let called = Connections.end url (if told then some ids else none) c in
      (called.0 ≡ (if told then some ids else none))
      × ((device : String)
          → get device called.1.connection_info
            ≡ (if told && contains device ids then none else get device c.connection_info))
unfolding Connections.end
end-told url true ids c = (refl, λ device. get-remove_serials url device ids c)
end-told url false ids c = (refl, λ device. refl)
