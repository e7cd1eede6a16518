-- ===== src/Extensions/WriteFile/Laws.antt =====
-- What stands at the destination when a file was written, and when that failed.
use pg_embed_setup_unpriv.Prelude.{
  ℕ, ◌≡◌, refl, sym, ap, subst, ◌⊎◌, inl, inr, Bool, true, false, none, some, List, [], ◌==◌,
  ==_iff, nat_eq, list_eq, if◌then◌else◌, Bool-cases, arith,
}
use pg_embed_setup_unpriv.Prelude.Texts.{Text}
use pg_embed_setup_unpriv.Error.{ok, err}
use pg_embed_setup_unpriv.Fallible.{Post, ◌>>=◌, ◌>>◌}
use pg_embed_setup_unpriv.Extensions.WriteFile.{
  File, Owner, Standing, nothing, irregular, regular, Destination, identical, absent, not_regular,
  different, unreadable, Calls, Tree, Outcome, lift, require_real_parents, create_parents,
  compare_digest, require_regular, inspect_destination, new_file, create_temp_beside, open_loop,
  temp_name_attempts, discard_temp, repair_existing, fill_temp, place, write_afresh, repaired,
  write_over, write_file,
}
use pg_embed_setup_unpriv.Extensions.WriteFile.Stamp.{
  Holds, IsStamped, repair_existing-IsStamped, fill_temp-IsStamped,
}

module _ (calls : Calls) (owner : Owner) (mode : ℕ) where
  -- What was there, but for the mode and the owner of a regular file.
  abbrev pub Kept : Standing → Standing → Type 0
  Kept before after =
      (after ≡ before)
      ⊎ ((old : File) × (new : File) × (before ≡ regular old)
          × (after ≡ regular new)
          × (new.bytes ≡ old.bytes))

  -- The bytes are those that were asked for, or those of the file that was there, with their hash.
  abbrev pub IsContents : List ℕ → Standing → List ℕ → Type 0
  IsContents bytes before contents =
      (contents ≡ bytes)
      ⊎ ((old : File) × (before ≡ regular old)
          × (old.bytes ≡ contents)
          × (calls.of_bytes contents ≡ calls.of_bytes bytes))

  -- What a run leaves, from what was at the destination.
  abbrev pub Written : List ℕ → Standing → Outcome calls × Tree → Type 0
  Written bytes before (ok u, tree) =
      (contents : List ℕ) × (file : File) × IsStamped calls owner mode contents file
      × (tree ≡ record { destination = regular file; temp = none })
      × IsContents bytes before contents
  Written bytes before (err e, tree) =
      Kept before tree.destination × ((tree.temp ≡ none) ⊎ (calls.can_remove ≡ false))

  discard_temp-Written :
      (bytes : List ℕ) (tree : Tree)
      → Written bytes tree.destination (err tt, discard_temp calls tree)
  unfolding discard_temp
  discard_temp-Written bytes tree = elim (Bool-cases calls.can_remove) [
    | inl e ↦ rw e (inl refl, inl refl)
    | inr e ↦ rw e (inl refl, inr refl)
  ]

  place-Written :
      (bytes : List ℕ) (r : Outcome calls × File) (tree : Tree)
      → Post (λ _. IsStamped calls owner mode bytes) (λ _. Unit) r
      → Written bytes tree.destination (place calls owner mode r tree)
  unfolding place
  place-Written bytes (err e, file) tree h =
      discard_temp-Written bytes (record tree { temp = some file })
  place-Written bytes (ok u, file) tree h = renamed calls.can_rename
    where
      renamed :
          (b : Bool)
          → Written bytes tree.destination (
              if b
              then (ok tt, record { destination = regular file; temp = none })
              else (err tt, discard_temp calls (record tree { temp = some file })))
      renamed true = (bytes, file, h, refl, inl refl)
      renamed false = discard_temp-Written bytes (record tree { temp = some file })

  write_afresh-Written :
      (relative : List Text) (bytes : List ℕ) (before : Standing)
      → Written bytes before (
          write_afresh calls owner mode relative bytes
            (record { destination = before; temp = none }))
  unfolding write_afresh create_temp_beside new_file
  write_afresh-Written relative bytes before =
      with_parents (create_parents calls relative) (open_loop calls temp_name_attempts 0)
    where
      with_parents :
          (parents opening : Outcome calls)
          → Written bytes before (
              (lift calls parents >> new_file calls opening >>= λ file.
              place calls owner mode (fill_temp calls owner mode bytes file))
                (record { destination = before; temp = none }))
      with_parents (err e) opening = (inl refl, inl refl)
      with_parents (ok u) (err e) = (inl refl, inl refl)
      with_parents (ok u) (ok v) =
          place-Written bytes _
            (record { destination = before; temp = some (record calls.fresh { bytes = [] }) })
            (fill_temp-IsStamped calls owner mode bytes (record calls.fresh { bytes = [] }))

  inspect_destination-identical :
      (before : Standing) (bytes : List ℕ) (file : File)
      → inspect_destination calls before bytes ≡ identical file
      → (before ≡ regular file) × (calls.of_bytes file.bytes ≡ calls.of_bytes bytes)
  unfolding inspect_destination require_regular compare_digest list_eq
  inspect_destination-identical nothing bytes file h = cc
  inspect_destination-identical irregular bytes file h =
      absurd (elsewhere calls.can_open calls.can_inspect h)
    where
      elsewhere :
          (open_ inspect : Bool)
          → (if open_ then if inspect then not_regular else unreadable else unreadable)
            ≡ identical file
          → ⊥
      elsewhere true true k = cc
      elsewhere true false k = cc
      elsewhere false inspect k = cc
  inspect_destination-identical (regular there) bytes file h =
      compared calls.can_open calls.can_inspect calls.can_read
        (calls.of_bytes there.bytes == calls.of_bytes bytes) refl h
    where
      compared :
          (open_ inspect read same : Bool)
          → (calls.of_bytes there.bytes == calls.of_bytes bytes) ≡ same
          → (if open_
              then if inspect
                then if read then if same then identical there else different else unreadable
                else unreadable
              else unreadable)
            ≡ identical file
          → (regular there ≡ regular file) × (calls.of_bytes file.bytes ≡ calls.of_bytes bytes)
      compared true true true true e k =
          let one : there ≡ file = cc in
          (
            ap regular one,
            subst (λ f. calls.of_bytes f.bytes ≡ calls.of_bytes bytes) one
                ((==_iff (calls.of_bytes there.bytes) (calls.of_bytes bytes)).0
                  (ground (arith, e))),
          )
      compared true true true false e k = cc
      compared true true false same e k = cc
      compared true false read same e k = cc
      compared false inspect read same e k = cc

  repaired-Written :
      (bytes : List ℕ) (old : File) (r : Outcome calls × File)
      → calls.of_bytes old.bytes ≡ calls.of_bytes bytes
      → Post (λ _. IsStamped calls owner mode old.bytes) (Holds calls owner mode old.bytes) r
      → Written bytes
          (regular old)
          (repaired calls owner mode r (record { destination = regular old; temp = none }))
  unfolding repaired
  repaired-Written bytes old (ok u, file) d h = (old.bytes, file, h, refl, inr (old, refl, refl, d))
  repaired-Written bytes old (err e, file) d h = (inr (old, file, refl, refl, h), inl refl)

  write_over-Written :
      (relative : List Text) (bytes : List ℕ) (before : Standing) (found : Destination)
      → inspect_destination calls before bytes ≡ found
      → Written bytes before (
          write_over calls owner mode relative bytes found
            (record { destination = before; temp = none }))
  unfolding write_over
  write_over-Written relative bytes before (identical file) h =
      let (e, d) = inspect_destination-identical before bytes file h in
      subst
        (λ s. Written bytes s (
          repaired calls owner mode (repair_existing calls owner mode file)
            (record { destination = s; temp = none })))
        (sym e)
        (repaired-Written bytes file _ d
          (repair_existing-IsStamped calls owner mode file.bytes file refl))
  write_over-Written relative bytes before absent h = write_afresh-Written relative bytes before
  write_over-Written relative bytes before not_regular h =
      write_afresh-Written relative bytes before
  write_over-Written relative bytes before different h = write_afresh-Written relative bytes before
  write_over-Written relative bytes before unreadable h = write_afresh-Written relative bytes before

  -- If a file was written, a regular file stands at its destination with the mode and the owner that
  -- were asked for, and it holds the bytes, or is the file that was there and has their hash; no
  -- temporary file is left. If that failed, what was there still stands there, but for the mode and
  -- the owner of a regular file, and a temporary file is left only if it cannot be removed.
  pub write_file-Written :
      (relative : List Text) (bytes : List ℕ) (before : Standing)
      → Written bytes before (
          write_file calls owner mode relative bytes (record { destination = before; temp = none }))
  unfolding write_file
  write_file-Written relative bytes before = checked (require_real_parents calls relative)
    where
      checked :
          (parents : Outcome calls)
          → Written bytes before (
              (lift calls parents >> λ tree.
              write_over calls owner mode relative bytes
                (inspect_destination calls tree.destination bytes)
                tree)
                (record { destination = before; temp = none }))
      checked (err e) = (inl refl, inl refl)
      checked (ok u) =
          write_over-Written relative bytes before (inspect_destination calls before bytes) refl
