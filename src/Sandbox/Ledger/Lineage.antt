-- ===== src/Sandbox/Ledger/Lineage.antt =====
-- What a sandbox has become after any further calls.
use kubebox.Common.{◌≡◌, refl, ◌∙◌, ap, ◌⊎◌, inl, inr, Text, lookup, Option, none, some}
use kubebox.Sandbox.Types.{Store, Deps, Sandbox, Phase, draining, deleted}
use kubebox.Sandbox.Ledger.{IsConsistent}
use kubebox.Sandbox.Ledger.Histories.{Step-IsConsistent}
use kubebox.Sandbox.Ledger.Phases.{Advance, stay, finish_draining, Follows, Step-Follows}
use kubebox.Sandbox.Mirror.Histories.{Calls, none_yet, call}

-- Moves of the state machine, one after another.
pub data Advances (p : Phase) : Phase → Type 0 where
  unmoved : Advances p p
  move : {q r : Phase} → Advances p q → Advance q r → Advances p r

-- A sandbox and what it has become after some calls.
pub record Becomes (sb sb' : Sandbox) : Type 0 where
  pub moves : Advances sb.phase sb'.phase
  pub rest : sb' ≡ record sb { phase = sb'.phase; updated_at = sb'.updated_at }

Advance-deleted : (q r : Phase) → Advance q r → q ≡ deleted → r ≡ deleted
Advance-deleted q r (stay p) h = h
Advance-deleted q r _ h = cc

-- A sandbox that is draining or deleted goes no other way.
Advance-ending :
    (q r : Phase) → Advance q r → (q ≡ draining) ⊎ (q ≡ deleted) → (r ≡ draining) ⊎ (r ≡ deleted)
Advance-ending q r (stay p) h = h
Advance-ending q r finish_draining h = inr refl
Advance-ending q r a (inr h) = inr (Advance-deleted q r a h)
Advance-ending q r _ (inl h) = cc

pub Advances-deleted : {p q : Phase} → Advances p q → p ≡ deleted → q ≡ deleted
Advances-deleted unmoved h = h
Advances-deleted (move a b) h = Advance-deleted _ _ b (Advances-deleted a h)

pub Advances-draining : {p q : Phase} → Advances p q → p ≡ draining → (q ≡ draining) ⊎ (q ≡ deleted)
Advances-draining unmoved h = inl h
Advances-draining (move a b) h = Advance-ending _ _ b (Advances-draining a h)

module _ {G : Type 0} (deps : Deps G) where
  pub Calls-IsConsistent : {s u : Store G} → IsConsistent s → Calls deps s u → IsConsistent u
  Calls-IsConsistent c none_yet = c
  Calls-IsConsistent c (call calls step) = Step-IsConsistent deps step (Calls-IsConsistent c calls)

  follow :
      (sb x : Sandbox) (o : Option Sandbox)
      → Becomes sb x
      → Follows x o
      → (y : Sandbox) × (o ≡ some y) × Becomes sb y
  follow sb x none b h = absurd h
  follow sb x (some y) b h = (
    y,
    refl,
    record {
      moves = move b.moves h.advance;
      rest =
          h.rest
          ∙ ap (λ (z : Sandbox). record z { phase = y.phase; updated_at = y.updated_at }) b.rest;
    },
  )

  -- A sandbox of a consistent store is there after every further call, in a phase that moves of the
  -- state machine lead to, and otherwise unchanged but for the time of its last change.
  pub Calls-Becomes :
      {s u : Store G} (id : Text) (sb : Sandbox)
      → IsConsistent s
      → Calls deps s u
      → lookup id s.sandboxes ≡ some sb
      → (sb' : Sandbox) × (lookup id u.sandboxes ≡ some sb') × Becomes sb sb'
  Calls-Becomes id sb c none_yet at = (sb, at, record { moves = unmoved; rest = refl })
  Calls-Becomes id sb c (call calls step) at =
      let (x, found, became) = Calls-Becomes id sb c calls at in
      follow sb x _ became (Step-Follows deps id x step (Calls-IsConsistent c calls) found)
