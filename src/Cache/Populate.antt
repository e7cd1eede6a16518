-- ===== src/Cache/Populate.antt =====
-- An entry of the cache counts as complete only when all of it was copied.
use pg_embed_setup_unpriv.Prelude.{
  ◌≡◌, refl, sym, ap, subst, ◌∙◌, inl, inr, Bool, true, false, Bool-cases, ◌&&◌, some, List, [],
  ◌∷◌, ◌==◌, ==_iff, nat_eq, list_eq, All, arith,
}
use pg_embed_setup_unpriv.Prelude.Texts.{Text}
use pg_embed_setup_unpriv.Cache.{
  VersionDir, Item, CopyAnswer, copied, cut_short, refused, completion_marker, exists,
  is_cache_entry_complete, is_regular, is_already_installed, place, marker, copied_item, copy_item,
  copy_dir, write_completion_marker, populate_cache,
}
use pg_embed_setup_unpriv.Cache.Merging.{
  IsCopied, Follows, Grows, merged, merged-Grows, merged-Follows, left-IsCopied, merged-IsCopied,
  grown-IsCopied,
}

abbrev pub NotMarker : Item → Type 0
NotMarker item = (item.name == completion_marker) ≡ false

-- What a round of the loop leaves when the whole copy succeeds.
record Round (before : VersionDir) (item : Item) (dir next : VersionDir) : Type 0 where
  grows : Grows dir next
  follows : Follows before next
  is_copied : IsCopied before next item

module _ (answer : Text → CopyAnswer) where
  place-marker :
      (item : Item) (whole : Bool) (dir : VersionDir)
      → NotMarker item
      → (place item whole dir).kind completion_marker ≡ dir.kind completion_marker
  unfolding place
  place-marker item whole dir h =
      ground (arith, ==_iff item.name completion_marker, ==_iff completion_marker item.name, h)

  copied_item-marker :
      (a : CopyAnswer) (item : Item) (next : VersionDir → Bool × VersionDir) (dir : VersionDir)
      → NotMarker item
      → ((d : VersionDir) → (next d).1.kind completion_marker ≡ d.kind completion_marker)
      → (copied_item answer a item next dir).1.kind completion_marker ≡ dir.kind completion_marker
  unfolding copied_item
  copied_item-marker copied item next dir n ih = ih _ ∙ place-marker item _ dir n
  copied_item-marker cut_short item next dir n ih = place-marker item false dir n
  copied_item-marker refused item next dir n ih = refl

  copy_item-left :
      (a : CopyAnswer) (item : Item) (next : VersionDir → Bool × VersionDir) (dir : VersionDir)
      → (is_regular item.item_kind && is_already_installed item dir) ≡ true
      → copy_item answer a item next dir ≡ next dir
  unfolding copy_item
  copy_item-left a item next dir h =
      ap (λ (b : Bool). elim b [ true ↦ next dir | false ↦ copied_item answer a item next dir ]) h

  copy_item-other :
      (a : CopyAnswer) (item : Item) (next : VersionDir → Bool × VersionDir) (dir : VersionDir)
      → (is_regular item.item_kind && is_already_installed item dir) ≡ false
      → copy_item answer a item next dir ≡ copied_item answer a item next dir
  unfolding copy_item
  copy_item-other a item next dir h =
      ap (λ (b : Bool). elim b [ true ↦ next dir | false ↦ copied_item answer a item next dir ]) h

  copy_dir-marker :
      (items : List Item) (dir : VersionDir)
      → All NotMarker items
      → (copy_dir answer items dir).1.kind completion_marker ≡ dir.kind completion_marker
  unfolding copy_dir
  copy_dir-marker [] dir h = refl
  copy_dir-marker (item ∷ items) dir (n, h) =
      elim (Bool-cases (is_regular item.item_kind && is_already_installed item dir)) [
        | inl left ↦
            rw (copy_item-left (answer item.name) item (copy_dir answer items) dir left)
              (copy_dir-marker items dir h)
        | inr other ↦
            rw (copy_item-other (answer item.name) item (copy_dir answer items) dir other) (
              copied_item-marker (answer item.name) item (copy_dir answer items) dir n
                (λ d. copy_dir-marker items d h))
      ]

  copied_item-done :
      (a : CopyAnswer) (item : Item) (next : VersionDir → Bool × VersionDir) (dir : VersionDir)
      → (copied_item answer a item next dir).0 ≡ true
      → copied_item answer a item next dir ≡ next (merged item dir)
  unfolding copied_item
  copied_item-done copied item next dir h = refl
  copied_item-done cut_short item next dir h = cc
  copied_item-done refused item next dir h = cc

  copy_item-Round :
      (before : VersionDir) (a : CopyAnswer) (item : Item) (next : VersionDir → Bool × VersionDir)
      (dir : VersionDir)
      → Follows before dir
      → (copy_item answer a item next dir).0 ≡ true
      → (d : VersionDir) × (copy_item answer a item next dir ≡ next d) × Round before item dir d
  copy_item-Round before a item next dir f h =
      elim (Bool-cases (is_regular item.item_kind && is_already_installed item dir)) [
        | inl left ↦ (
          dir,
          copy_item-left a item next dir left,
          record {
            grows = λ name. (λ e. e, λ w. w);
            follows = f;
            is_copied = left-IsCopied before item dir f left;
          },
        )
        | inr other ↦
            let e = copy_item-other a item next dir other in
            (
              merged item dir,
              e ∙ copied_item-done a item next dir (sym (ap (λ r. r.0) e) ∙ h),
              record {
                grows = merged-Grows item dir;
                follows = merged-Follows before item dir f;
                is_copied = merged-IsCopied before item dir f;
              },
            )
      ]

  copy_dir-copies :
      (before : VersionDir) (items : List Item) (dir : VersionDir)
      → Follows before dir
      → (copy_dir answer items dir).0 ≡ true
      → Grows dir (copy_dir answer items dir).1
        × All (IsCopied before (copy_dir answer items dir).1) items
  unfolding copy_dir
  copy_dir-copies before [] dir f h = (λ name. (λ e. e, λ w. w), tt)
  copy_dir-copies before (item ∷ items) dir f h =
      let (d, e, r) =
        copy_item-Round before (answer item.name) item (copy_dir answer items) dir f h in
      let (g, all) = copy_dir-copies before items d r.follows (sym (ap (λ r. r.0) e) ∙ h) in
      subst (λ r. Grows dir r.1 × All (IsCopied before r.1) (item ∷ items)) (sym e)
        (
          λ name. (λ x. (g name).0 ((r.grows name).0 x), λ x. (g name).1 ((r.grows name).1 x)),
          (grown-IsCopied before d (copy_dir answer items d).1 item g r.is_copied, all),
        )

  marker-Grows : (dir : VersionDir) → Grows dir (place marker true dir)
  unfolding place exists
  marker-Grows dir name = (λ e. ground (arith, e), λ w. ground (arith, w))

  marker-keeps :
      (before : VersionDir) (items : List Item) (dir : VersionDir)
      → All (IsCopied before dir) items
      → All (IsCopied before (place marker true dir)) items
  marker-keeps before [] dir h = tt
  marker-keeps before (item ∷ items) dir (c, h) = (
    grown-IsCopied before dir (place marker true dir) item (marker-Grows dir) c,
    marker-keeps before items dir h,
  )

  marked :
      (before : VersionDir) (can_mark : Bool) (items : List Item) (r : Bool × VersionDir)
      → (r.0 ≡ true → All (IsCopied before r.1) items)
      → exists (r.1.kind completion_marker) ≡ false
      → is_cache_entry_complete (write_completion_marker answer can_mark r).1 ≡ true
      → All (IsCopied before (write_completion_marker answer can_mark r).1) items
  unfolding write_completion_marker is_cache_entry_complete
  marked before can_mark items (false, dir) h absent complete =
      absurd (ground (arith, absent, complete))
  marked before false items (true, dir) h absent complete =
      absurd (ground (arith, absent, complete))
  marked before true items (true, dir) h absent complete = marker-keeps before items dir (h refl)

same-Follows : (dir : VersionDir) → Follows dir dir
same-Follows dir name = inr (refl, λ n h. h)

-- An attempt to fill a cache entry that has no marker, from a source that has none at its top, may
-- fail at any item, half way through one, or at the marker. If the entry counts as complete
-- afterwards, every item of the source stands in it with the source's contents, but for what was in
-- the entry before: a file that already had the length of the source's, and a folder that was
-- already there, may keep what they held. A link may not.
pub populate_cache-IsCopied :
    (answer : Text → CopyAnswer) (can_mark : Bool) (items : List Item) (dir : VersionDir)
    → All NotMarker items
    → exists (dir.kind completion_marker) ≡ false
    → is_cache_entry_complete (populate_cache answer can_mark (some items) dir).1 ≡ true
    → All (IsCopied dir (populate_cache answer can_mark (some items) dir).1) items
unfolding populate_cache
populate_cache-IsCopied answer can_mark items dir h absent =
    marked answer dir can_mark items (copy_dir answer items dir)
      (λ done. (copy_dir-copies answer dir items dir (same-Follows dir) done).1)
      (ap exists (copy_dir-marker answer items dir h) ∙ absent)
