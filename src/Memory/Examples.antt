-- ===== src/Memory/Examples.antt =====
-- Runs of the in-memory governance store on small inputs.
use kubebox.Common.{
  ◌≡◌, refl, ◌∷◌, [], Text, lookup, insert, text_eq, pos, inc64, dec64, wrap64, ◌+ℤ◌, none, some,
  arith,
}
use kubebox.Governance.{GovError}
use kubebox.Memory.{
  MemoryGovernanceStore, new_memory, set_quota, reserve_allocation, release_allocation,
}
use kubebox.Memory.Balance.{IsBalanced}
use kubebox.Memory.Histories.{Reach, start, next, sets_quota, reserves, releases, Reach-IsBalanced}

abbrev a_text : Text
a_text = b'a' ∷ []

abbrev b_text : Text
b_text = b'b' ∷ []

abbrev allowed : MemoryGovernanceStore
allowed = (set_quota new_memory a_text b_text (pos 2)).0

abbrev held : MemoryGovernanceStore
held = (reserve_allocation allowed a_text b_text a_text b_text (pos 0)).0

abbrev freed : MemoryGovernanceStore
freed = (release_allocation held a_text b_text a_text (pos 1)).0

unused_id : lookup a_text allowed.allocations ≡ none
unfolding set_quota new_memory lookup
unused_id = refl

history : Reach freed
history =
    next
      (next (next start (sets_quota new_memory a_text b_text (pos 2) (omega arith)))
        (reserves allowed a_text b_text a_text b_text (pos 0) unused_id))
      (releases held a_text b_text a_text (pos 1))

Reach-IsBalanced_example : IsBalanced freed
Reach-IsBalanced_example = Reach-IsBalanced freed history

released_again : release_allocation freed a_text b_text a_text (pos 2) ≡ (freed, none)
unfolding set_quota reserve_allocation release_allocation new_memory lookup insert text_eq inc64
    dec64 wrap64 ◌+ℤ◌
released_again = refl

no_quota :
    reserve_allocation new_memory a_text b_text a_text b_text (pos 0)
    ≡ (new_memory, some GovError.quota_not_configured)
unfolding reserve_allocation new_memory lookup
no_quota = refl
