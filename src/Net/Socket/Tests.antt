-- ===== src/Net/Socket/Tests.antt =====
-- Concrete searches for a port.
use kssio.Prelude.{
  ◌≡◌, ◌≤◌, refl, inl, true, some, none, ◌∷◌, [], ◌⊎◌, arith, ok, thrown, done, Exception, Option,
  ℕ, if◌then◌else◌, ◌==◌,
}
use kssio.Prelude.Int.{pos}
use kssio.Net.Socket.{
  SockAddr, SocketEvent, opened, shut_down, closed, bind_to_port, find_next_available_port,
  next_available_port, af_inet, unavailable,
}
use kssio.Net.Socket.Search.{Ends, bind_to_port-Ends, find_next_available_port_events}

-- On a big endian machine port 5000 is in use, and all others are free.
abbrev bind_but_5000 : SockAddr → Option ℕ
bind_but_5000 addr = if addr.sin_port == 5000 then some 98 else none

abbrev any_address : SockAddr
any_address = record { sa_family = af_inet; s_addr = 0; sin_port = 0 }

second_port :
    find_next_available_port true (done 3) bind_but_5000 (pos 5000) (pos 5010)
    ≡ (ok 5001, opened ∷ shut_down ∷ closed ∷ [])
unfolding find_next_available_port kssio.Net.Socket.verify_port_number kssio.Net.Socket.bind_loop
    kssio.Net.Socket.attempt_to_bind
second_port = refl

bind_to_port-Ends_example : Ends true bind_but_5000 any_address (unavailable 5000 5010) 5000 5010 (
    bind_to_port true bind_but_5000
      (pos 3)
      next_available_port
      (some any_address)
      16
      (pos 5000)
      (pos 5010))
bind_to_port-Ends_example =
    bind_to_port-Ends true bind_but_5000 3 5000 5010 16 any_address (inl refl) (omega arith)
      (omega arith) (omega arith) (omega arith) (omega arith)

find_next_available_port_events_example :
    let (r, events) = find_next_available_port true (done 3) bind_but_5000 (pos 5000) (pos 5010) in
    ((p : ℕ) × (r ≡ ok p) × (5000 ≤ p) × (p ≤ 5010) × (events ≡ opened ∷ shut_down ∷ closed ∷ []))
    ⊎ ((e : Exception) × (r ≡ thrown e) × (events ≡ opened ∷ []))
find_next_available_port_events_example =
    find_next_available_port_events true bind_but_5000 3 5000 5010 (omega arith) (omega arith)
      (omega arith) (omega arith)
