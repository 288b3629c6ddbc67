-- ===== src/Raft/Stale.antt =====
-- What goes wrong when `on_commit` suspends inside a proposal and an election comes in between.
use nexus_trading.Base.{ℕ, ◌+◌, ◌-◌, ◌≤◌, ◌≡◌, refl, true, false, [], ◌∷◌, ◌++◌, ltb, arith}
use nexus_trading.Raft.Node.{Node, LogEntry, apply_committed, accept, handle_append_entries}

-- A node that has applied as many entries as the leader's log is long, or more, acknowledges the
-- leader's entry and puts it at the end of its own log, and never hands it to `on_commit`; its
-- commit index falls back.
pub late_entry_skipped :
    (now : ℕ) (e : LogEntry) (n : Node)
    → n.current_term ≤ e.term
    → e.index + 1 ≤ n.applied_next
    → let (accepted, n') = handle_append_entries now e n in
      (accepted ≡ true)
      × (n'.log ≡ n.log ++ e ∷ [])
      × (n'.delivered ≡ n.delivered)
      × (n'.applied_next ≡ n.applied_next)
      × (n'.commit_next ≤ n.applied_next)
unfolding handle_append_entries apply_committed
late_entry_skipped now e n t i =
    let current : ltb e.term n.current_term ≡ false = ground arith in
    let nothing : (accept now e n).commit_next - (accept now e n).applied_next ≡ 0 = omega arith in
    rw (current, nothing) (refl, refl, refl, refl, i)
