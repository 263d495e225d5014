-- ===== src/Net/Socket.antt =====
-- Sources/socket.cpp: binding a socket to a port, or to the first free port of a range. A call
-- tries each port at most once, so the answers of `bind` are a function of the address with its
-- port: none, or the `errno`.
pub mod Search
mod Tests
use kssio.Prelude.{
  done, require, fails, ℕ, zero, suc, ◌+◌, ◌-◌, ◌^◌, Bool, true, false, not, ◌&&◌, ◌||◌, Option,
  none, some, List, [], ◌∷◌, ◌++◌, leb, ltb, ◌==◌, if◌then◌else◌, Text, codes, Exception, Result,
  ok, thrown, Sys, or_throw, system_error, invalid_argument, parameters, postconditions, check,
  ◌>>=◌, ◌>>◌,
}
use kssio.Prelude.Int.{ℤ, pos, negsuc, pos_part, leb_ℤ, eqb_ℤ}
use kssio.Net.ByteOrder.{hton_16}
use kssio.Net.Text.{print}

-- The family, and the port in network order.
pub record SockAddr : Type 0 where
  pub sa_family : ℕ
  pub s_addr : ℕ
  pub sin_port : ℕ

-- The numbers of Linux.
abbrev pub af_inet : ℕ
af_inet = 2

abbrev pub af_inet6 : ℕ
af_inet6 = 10

abbrev pub eaddrinuse : ℕ
eaddrinuse = 98

abbrev eafnosupport : ℕ
eafnosupport = 97

abbrev pub next_available_port : ℤ
next_available_port = negsuc 1

abbrev max_possible_port_as_int : ℕ
max_possible_port_as_int = 65535

pub verify_port_number : Text → ℤ → Result (Unit {0})
verify_port_number param_name port =
    if leb_ℤ port (pos 0)
    then thrown (invalid_argument (param_name ++ codes " must be positive"))
    else if not (leb_ℤ port (pos max_possible_port_as_int))
    then thrown (
        invalid_argument
          (param_name ++ (codes " must be no more than " ++ print 10 max_possible_port_as_int)))
    else ok tt

-- `ports in [a,b] unavailable`
abbrev pub unavailable : ℕ → ℕ → Exception
unavailable starting_port ending_port = system_error eaddrinuse (
    codes "ports in ["
    ++ (print 10 starting_port ++ (codes "," ++ (print 10 ending_port ++ codes "] unavailable"))))

-- `bind` is the system call on the socket at hand, `big` the byte order of the machine.
module _ (big : Bool) (bind : SockAddr → Option ℕ) where
  -- The address with its port set.
  abbrev pub at_port : SockAddr → ℕ → SockAddr
  at_port addr port = record addr { sin_port = hton_16 big port }

  -- The port, and the caller's address, whose port has been set.
  pub attempt_to_bind : ℕ → SockAddr → Result (ℕ × SockAddr)
  attempt_to_bind port addr =
      if (addr.sa_family == af_inet) || (addr.sa_family == af_inet6)
      then elim (bind (at_port addr port)) [
        | none ↦ ok (port, at_port addr port)
        | some errno ↦ thrown (system_error errno (codes "bind"))
      ]
      else thrown
          (system_error eafnosupport (codes "only AF_INET and AF_INET6 are currently supported"))

  -- `catch (const system_error& e)`: go on exactly at EADDRINUSE.
  is_in_use : Exception → Bool
  is_in_use (system_error errno what) = errno == eaddrinuse
  is_in_use e = false

  -- The `try` in the loop, before the rest of the rounds.
  catch_in_use : Result (ℕ × SockAddr) → Result (ℕ × SockAddr) → Result (ℕ × SockAddr)
  unfolding is_in_use
  catch_in_use (ok r) rest = ok r
  catch_in_use (thrown e) rest = if is_in_use e then rest else thrown e

  -- `for (port = startingPort; port <= endingPort; ++port)`, with the rounds that are left and
  -- what is thrown behind the loop.
  pub bind_loop : Exception → ℕ → ℕ → SockAddr → Result (ℕ × SockAddr)
  unfolding catch_in_use
  bind_loop failure zero port addr = thrown failure
  bind_loop failure (suc rounds) port addr =
      let rest = bind_loop failure rounds (port + 1) (at_port addr port) in
      catch_in_use (attempt_to_bind port addr) rest

  -- `port == nextAvailablePort`
  bind_search : SockAddr → ℤ → ℤ → Result (ℕ × SockAddr)
  bind_search addr starting_port ending_port = do
    verify_port_number (codes "startingPort") starting_port
    verify_port_number (codes "endingPort") ending_port
    require (leb_ℤ starting_port ending_port)
        (invalid_argument (codes "startingPort must be less than or equal to endingPort"))
    let first = pos_part starting_port
    let last = pos_part ending_port
    bind_loop (unavailable first last) (last + 1 - first) first addr

  -- `port != nextAvailablePort`, with the postcondition that is then left to check.
  bind_exact : ℤ → SockAddr → Result (ℕ × SockAddr)
  bind_exact port addr = do
    verify_port_number (codes "port") port
    r ← attempt_to_bind (pos_part port) addr
    check postconditions (eqb_ℤ (pos r.0) port)
    ok r

  -- The address that stands in for a null pointer.
  abbrev pub default_addr : SockAddr
  default_addr = record { sa_family = af_inet; s_addr = 0; sin_port = 0 }

  pub bind_to_port : ℤ → ℤ → Option SockAddr → ℕ → ℤ → ℤ → Result (ℕ × SockAddr)
  unfolding bind_search bind_exact
  bind_to_port sock port addr addr_len starting_port ending_port = do
    check parameters (not (leb_ℤ sock (pos 0)) && ltb addr_len (2 ^ 32))
    let a : SockAddr = elim addr [ some a ↦ a | none ↦ default_addr ]
    if eqb_ℤ port next_available_port
        then bind_search a starting_port ending_port
        else bind_exact port a

-- What happens to the socket of findNextAvailablePort.
pub data SocketEvent : Type 0 where
  opened shut_down closed : SocketEvent

-- What follows the call of bindToPort.
finish_search : ℤ → ℤ → Result (ℕ × SockAddr) → Result ℕ × List SocketEvent
finish_search starting_port ending_port (thrown e) = (thrown e, opened ∷ [])
finish_search starting_port ending_port (ok r) = (
  (check postconditions (leb_ℤ starting_port (pos r.0) && leb_ℤ (pos r.0) ending_port) >> ok r.0),
  opened ∷ shut_down ∷ closed ∷ [],
)

-- The result, and what has happened to the socket when the call ends.
pub find_next_available_port :
    Bool → Sys ℕ → (SockAddr → Option ℕ) → ℤ → ℤ → Result ℕ × List SocketEvent
unfolding bind_to_port finish_search
find_next_available_port big (fails errno) bind starting_port ending_port =
    (thrown (system_error errno (codes "socket")), [])
find_next_available_port big (done sock) bind starting_port ending_port =
    finish_search starting_port ending_port
      (bind_to_port big bind (pos sock) next_available_port none 0 starting_port ending_port)
