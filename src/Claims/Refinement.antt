-- ===== src/Claims/Refinement.antt =====
-- The processes under the guard implement the specification without it.
use pg_embed_setup_unpriv.Prelude.{◌≡◌, ◌⊎◌}
use pg_embed_setup_unpriv.Claims.{Shared}
use pg_embed_setup_unpriv.Claims.Spec.{Tree, Move}

abbrev pub view : Shared → Tree
view s = record { users = s.claims; present = s.tree }

-- A step of the processes is no move of the specification, or one move.
abbrev pub Refines : Shared → Shared → Type 0
Refines s t = (view t ≡ view s) ⊎ Move (view s) (view t)
