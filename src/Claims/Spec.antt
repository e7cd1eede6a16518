-- ===== src/Claims/Spec.antt =====
-- What the claim guard is for, without the guard: clusters use the install tree, and it is removed
-- only when no cluster but the one that removes it uses it.
use pg_embed_setup_unpriv.Prelude.{◌≡◌, Bool, true, false, Option, some, List, ◌∷◌, ◌++◌, All}
use pg_embed_setup_unpriv.Prelude.Texts.{Text}
use pg_embed_setup_unpriv.Claims.{Claim, without}

-- The clusters that use the tree, and whether it is there.
pub record Tree : Type 0 where
  pub users : List Claim
  pub present : Bool

abbrev pub IsOwn : Option Text → Claim → Type 0
IsOwn own user = some user.name ≡ own

pub data Move (t : Tree) : Tree → Type 0 where
  join : (user : Claim) → Move t (record t { users = user ∷ t.users })
  leave : (owner : _) → Move t (record t { users = without owner t.users })
  build :
      (user : Claim) (before after : List Claim)
      → t.users ≡ before ++ (user ∷ after)
      → Move t (record t { present = true })
  erase : (own : Option Text) → All (IsOwn own) t.users → Move t (record t { present = false })
