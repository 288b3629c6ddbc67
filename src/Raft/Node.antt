-- ===== src/Raft/Node.antt =====
-- class RaftNode of infrastructure/raft.py, method by method. `_commit_index` and `_last_applied`
-- start at -1: the fields `commit_next` and `applied_next` hold them plus one. Times are in ms.
use nexus_trading.Base.{
  ℕ, zero, suc, ◌+◌, ◌-◌, Bool, true, false, Option, none, some, List, [], ◌∷◌, ◌++◌, String, ltb,
  ◌==◌, if◌then◌else◌, length, get_elem?,
}

pub data RaftState : Type 0 where
  follower candidate leader : RaftState

abbrev pub is_leader_state : RaftState → Bool
is_leader_state leader = true
is_leader_state _ = false

-- The command dictionaries that RaftPSA builds, and any other.
pub data Command : Type 0 where
  halt : String → String → Command
  resume : String → Command
  other_command : String → Command

pub record LogEntry : Type 0 where
  pub term : ℕ
  pub index : ℕ
  pub command : Command

pub record Node : Type 0 where
  pub id : ℕ
  pub state : RaftState
  pub current_term : ℕ
  pub voted_for : Option ℕ
  pub log : List LogEntry
  pub commit_next : ℕ
  pub applied_next : ℕ
  pub next_index : List (ℕ × ℕ)
  pub match_index : List (ℕ × Option ℕ)
  pub last_heartbeat : ℕ
  -- the entries handed to `_on_commit`, in order
  pub delivered : List LogEntry

unfoldable pub init : ℕ → ℕ → Node
init id now = record {
  id = id;
  state = follower;
  current_term = 0;
  voted_for = none;
  log = [];
  commit_next = 0;
  applied_next = 0;
  next_index = [];
  match_index = [];
  last_heartbeat = now;
  delivered = [];
}

abbrev pub is_leader : Node → Bool
is_leader n = is_leader_state n.state

abbrev pub deliver : Option LogEntry → List LogEntry → List LogEntry
deliver none ds = ds
deliver (some e) ds = ds ++ e ∷ []

-- One round of the loop in `_apply_committed`: an index past the log is passed over, and what
-- `_on_commit` raises is only logged.
abbrev pub apply_next : Node → Node
apply_next n = record n {
  applied_next = n.applied_next + 1;
  delivered = deliver (get_elem? n.log n.applied_next) n.delivered;
}

abbrev pub apply_rounds : ℕ → Node → Node
apply_rounds zero n = n
apply_rounds (suc r) n = apply_rounds r (apply_next n)

-- `while self._last_applied < self._commit_index`
unfoldable pub apply_committed : Node → Node
apply_committed n = apply_rounds (n.commit_next - n.applied_next) n

-- `_handle_append_entries_from`
abbrev pub accept : ℕ → LogEntry → Node → Node
accept now e n = record n {
  current_term = if ltb n.current_term e.term then e.term else n.current_term;
  voted_for = if ltb n.current_term e.term then none else n.voted_for;
  state = follower;
  last_heartbeat = now;
  log = n.log ++ e ∷ [];
  commit_next = e.index + 1;
}

unfoldable pub handle_append_entries : ℕ → LogEntry → Node → Bool × Node
unfolding apply_committed
handle_append_entries now e n =
    if ltb e.term n.current_term then (false, n) else (true, apply_committed (accept now e n))

abbrev pub follow : ℕ → Node → Node
follow term n =
    if ltb n.current_term term
    then record n { current_term = term; state = follower; voted_for = none }
    else n

abbrev pub may_vote : Option ℕ → ℕ → Bool
may_vote none from = true
may_vote (some v) from = v == from

-- `_handle_request_vote`: the length of the candidate's log is passed, and not read.
unfoldable pub handle_request_vote : ℕ → ℕ → ℕ → ℕ → Node → Bool × Node
handle_request_vote now from term log_length n =
    if ltb term n.current_term
    then (false, n)
    else let m = follow term n in
      if may_vote m.voted_for from
      then (true, record m { voted_for = some from; last_heartbeat = now })
      else (false, m)

-- The first lines of `_start_election`.
unfoldable pub stand : Node → Node
stand n = record n { current_term = n.current_term + 1; state = candidate; voted_for = some n.id }

-- `_become_leader`, with the two peers.
unfoldable pub become_leader : ℕ → ℕ → Node → Node
become_leader p q n = record n {
  state = leader;
  next_index = (p, length n.log) ∷ (q, length n.log) ∷ [];
  match_index = (p, none) ∷ (q, none) ∷ [];
}

-- What `_send_heartbeats` does to a peer.
unfoldable pub handle_heartbeat : ℕ → ℕ → Node → Node
handle_heartbeat now term n =
    if ltb n.current_term term
    then record n { last_heartbeat = now; current_term = term; state = follower }
    else record n { last_heartbeat = now }

-- The lines of `propose` before the replication.
unfoldable pub new_entry : Command → Node → LogEntry
new_entry c n = record { term = n.current_term; index = length n.log; command = c }

-- `self._log.pop()`
abbrev pub pop_last : List LogEntry → List LogEntry
pop_last [] = []
pop_last (e ∷ []) = []
pop_last (e ∷ f ∷ es) = e ∷ pop_last (f ∷ es)
