-- ===== src/Ws/Manager.antt =====
-- `ConnectionManager`: the connections of each user, and the messages to them. A connection is told
-- by its number, as the source tells objects apart by identity. Whether a connection still takes
-- messages is a parameter; what other tasks do while a message is sent is left out.
use stock_invest_system.Prelude.{
  ℕ, zero, suc, ◌+◌, Bool, false, ◌||◌, List, [], ◌∷◌, ◌++◌, Option, none, some, ◌==◌,
  if◌then◌else◌, length,
}

-- `ConnectionState`
pub record Connection : Type 0 where
  pub number : ℕ
  pub user_id : ℕ
  pub subscribed : List ℕ

-- `_connections`: a dict in the order of its insertions.
abbrev pub Connections : Type 0
Connections = List (ℕ × List Connection)

abbrev pub lookup : ℕ → Connections → List Connection
lookup user [] = []
lookup user ((key, conns) ∷ rest) = if key == user then conns else lookup user rest

-- `setdefault(user_id, []).append(state)`
unfoldable pub register : Connections → Connection → Connections
register [] state = (state.user_id, state ∷ []) ∷ []
register ((key, conns) ∷ rest) state =
    if key == state.user_id
    then (key, conns ++ state ∷ []) ∷ rest
    else (key, conns) ∷ register rest state

abbrev pub contains : List Connection → Connection → Bool
contains [] state = false
contains (x ∷ conns) state = x.number == state.number || contains conns state

-- `conns.remove(state)`, for a state that is there.
unfoldable pub remove : List Connection → Connection → List Connection
remove [] state = []
remove (x ∷ conns) state = if x.number == state.number then conns else x ∷ remove conns state

-- The entry of a user after one of the connections has gone: none, if no other is left.
abbrev pub keep_entry : ℕ → List Connection → Connections → Connections
keep_entry key [] rest = rest
keep_entry key (x ∷ conns) rest = (key, x ∷ conns) ∷ rest

unfoldable pub disconnect : Connections → Connection → Connections
disconnect [] state = []
disconnect ((key, conns) ∷ rest) state =
    if key == state.user_id
    then keep_entry key (remove conns state) rest
    else (key, conns) ∷ disconnect rest state

unfoldable pub count : Connections → ℕ
count [] = 0
count ((key, conns) ∷ rest) = length conns + count rest

-- The numbers that a message reached, in order, and the connections afterwards.
pub record Sent : Type 0 where
  pub reached : List ℕ
  pub conns : List Connection

abbrev pub get_elem? : List Connection → ℕ → Option Connection
get_elem? [] i = none
get_elem? (x ∷ xs) zero = some x
get_elem? (x ∷ xs) (suc i) = get_elem? xs i

abbrev pub then_sent : List ℕ → Sent → Sent
then_sent first r = record r { reached = first ++ r.reached }

abbrev pub is_subscribed : ℕ → List ℕ → Bool
is_subscribed symbol [] = false
is_subscribed symbol (x ∷ xs) = x == symbol || is_subscribed symbol xs

module _ (alive : ℕ → Bool) where
  -- `_send`: a connection that does not take the message is removed.
  abbrev pub send : Connection → List Connection → Sent
  send state conns =
      if alive state.number
      then record { reached = state.number ∷ []; conns = conns }
      else record { reached = []; conns = remove conns state }

  -- `for state in list(conns): await self._send(state, message)`: the loop goes over a copy. So do
  -- `send_to_user` and `broadcast_all`.
  unfoldable pub send_copy : List Connection → List Connection → Sent
  send_copy [] conns = record { reached = []; conns = conns }
  send_copy (state ∷ copy) conns =
      let now = send state conns in then_sent now.reached (send_copy copy now.conns)

  unfoldable pub send_to_user : ℕ → Connections → Sent
  send_to_user user all = send_copy (lookup user all) (lookup user all)

  abbrev pub send_if : ℕ → Connection → List Connection → Sent
  send_if symbol state conns =
      if is_subscribed symbol state.subscribed
      then send state conns
      else record { reached = []; conns = conns }

  -- `for state in conns: if symbol_id in state.subscribed: await self._send(...)`, the inner loop of
  -- `broadcast_kline` and `broadcast_kline_refresh`: the iterator keeps an index into the list
  -- itself, which `_send` makes shorter. Each round leaves fewer places after the index.
  unfoldable pub send_live : ℕ → ℕ → ℕ → List Connection → Sent
  send_live symbol zero i conns = record { reached = []; conns = conns }
  send_live symbol (suc rounds) i conns = elim (get_elem? conns i) [
    | none ↦ record { reached = []; conns = conns }
    | some state ↦
        let now = send_if symbol state conns in
        then_sent now.reached (send_live symbol rounds (suc i) now.conns)
  ]

  unfoldable pub kline_to_user : ℕ → List Connection → Sent
  kline_to_user symbol conns = send_live symbol (suc (length conns)) 0 conns
