-- ===== src/Sandbox/Ledger/Delete.antt =====
-- `CompleteDeletion` keeps the store consistent: it moves no slot.
use kubebox.Common.{
  ◌<◌, ◌≡◌, refl, sym, ◌∙◌, inl, inr, Text, text_eq, text_eq_iff, lookup, insert, lookup-insert, ℕ,
  Option, none, some, Bool-cases, arith,
}
use kubebox.Governance.{Time}
use kubebox.Sandbox.Types.{Store, Sandbox, Allocation, Phase, draining, deleted, sandbox_id_of}
use kubebox.Sandbox.Lifecycle.{write_phase, complete_deletion, complete_found, complete_phase}
use kubebox.Sandbox.Ledger.{IsConsistent, HasSlot, Link, slot_of}

module _ {G : Type 0} (s : Store G) (c : IsConsistent s) (id : Text) (sb : Sandbox)
    (at : lookup id s.sandboxes ≡ some sb) (p : Phase) (same : slot_of p ≡ slot_of sb.phase)
    (now : Time) where
  abbrev sb' : Sandbox
  sb' = record sb { phase = p; updated_at = now }

  HasSlot-phase : (o : Option Allocation) → HasSlot id sb o → HasSlot id sb' o
  HasSlot-phase none h = h
  HasSlot-phase (some a) h = (h.0, h.1 ∙ sym same)

  links-phase : (j : Text) → Link s j (lookup j (insert id sb' s.sandboxes))
  links-phase j = rw lookup-insert (elim (Bool-cases (text_eq id j)) [
    | inl e ↦ rw (e, ← (text_eq_iff _ _).0 e) (HasSlot-phase _ (rw at at (c.links id)))
    | inr e ↦ rw e (c.links j)
  ])

  free_sandbox-phase :
      (m : ℕ) → s.sequence < m → lookup (sandbox_id_of m) (insert id sb' s.sandboxes) ≡ none
  free_sandbox-phase m h = ground (
    arith,
    lookup-insert id (sandbox_id_of m) sb' s.sandboxes,
    text_eq_iff id (sandbox_id_of m),
    at,
    c.free_sandbox m,
  )

  write_phase-IsConsistent : IsConsistent (write_phase s id sb p now).0
  unfolding write_phase
  write_phase-IsConsistent = record {
    in_memory = c.in_memory;
    rows = c.rows;
    links = links-phase;
    free_allocation = c.free_allocation;
    free_sandbox = free_sandbox-phase;
  }

module _ {G : Type 0} where
  complete_phase-IsConsistent :
      (s : Store G) (id : Text) (p : Phase) (sb : Sandbox) (now : Time)
      → p ≡ sb.phase
      → lookup id s.sandboxes ≡ some sb
      → IsConsistent s
      → IsConsistent (complete_phase p s id sb now).0
  unfolding complete_phase
  complete_phase-IsConsistent s id draining sb now e at c =
      write_phase-IsConsistent s c id sb at deleted (rw (← e)) now
  complete_phase-IsConsistent s id Phase.failed sb now e at c =
      write_phase-IsConsistent s c id sb at deleted (rw (← e)) now
  complete_phase-IsConsistent s id _ sb now e at c = c

  complete_found-IsConsistent :
      (s : Store G) (id : Text) (o : Option Sandbox) (now : Time)
      → o ≡ lookup id s.sandboxes
      → IsConsistent s
      → IsConsistent (complete_found o s id now).0
  unfolding complete_found
  complete_found-IsConsistent s id none now e c = c
  complete_found-IsConsistent s id (some sb) now e c =
      complete_phase-IsConsistent s id sb.phase sb now refl (sym e) c

  -- Whatever `CompleteDeletion` answers, the store stays consistent.
  pub complete_deletion-IsConsistent :
      (s : Store G) (id : Text) (now : Time)
      → IsConsistent s
      → IsConsistent (complete_deletion s id now).0
  unfolding complete_deletion
  complete_deletion-IsConsistent s id now = complete_found-IsConsistent s id _ now refl
