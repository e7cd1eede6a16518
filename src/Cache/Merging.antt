-- ===== src/Cache/Merging.antt =====
-- What the copy of one item makes of an entry, next to what was there before: copy.rs.
use pg_embed_setup_unpriv.Prelude.{
  ◌≡◌, sym, ap, subst, ◌∙◌, ◌⊎◌, inl, inr, ℕ, true, false, Bool-cases, ◌&&◌, ◌||◌, Option, none,
  some, ◌==◌, ==_iff, ==_refl, nat_eq, list_eq, arith,
}
use pg_embed_setup_unpriv.Prelude.Texts.{Text}
use pg_embed_setup_unpriv.Cache.{
  FileKind, regular_file, folder, link, VersionDir, Item, exists, is_folder, is_regular, has_size,
  is_already_installed, place, is_replaced,
}

-- What a copy may leave as it was: a file of the length of the source's, or a folder, which was
-- there before.
abbrev pub IsOlder : FileKind → VersionDir → Item → Type 0
IsOlder regular_file before item = before.file_size item.name ≡ some item.size
IsOlder folder before item = exists (before.kind item.name) ≡ true
IsOlder link before item = ⊥

-- The item stands in the directory, with the source's contents unless it is older.
abbrev pub IsCopied : VersionDir → VersionDir → Item → Type 0
IsCopied before dir item =
    (exists (dir.kind item.name) ≡ true)
    × ((dir.whole item.name ≡ true) ⊎ IsOlder item.item_kind before item)

-- The contents under a name are the source's, or they are as old as they were before.
abbrev AsBefore : VersionDir → VersionDir → Text → Type 0
AsBefore before dir name =
    (dir.whole name ≡ true)
    ⊎ ((exists (dir.kind name) ≡ exists (before.kind name))
        × ((n : ℕ) → dir.file_size name ≡ some n → before.file_size name ≡ some n))

abbrev pub Follows : VersionDir → VersionDir → Type 0
Follows before dir = (name : Text) → AsBefore before dir name

abbrev pub Grows : VersionDir → VersionDir → Type 0
Grows dir next =
    (name : Text)
    → (exists (dir.kind name) ≡ true → exists (next.kind name) ≡ true)
      × (dir.whole name ≡ true → next.whole name ≡ true)

has_size-some : (n : ℕ) (size : Option ℕ) → has_size n size ≡ true → size ≡ some n
unfolding has_size
has_size-some n none h = absurd (cc h)
has_size-some n (some m) h = ground (arith, ==_iff m n, h)

-- The directory after a copy of the item that is not left out.
abbrev pub merged : Item → VersionDir → VersionDir
merged item dir = place item (is_replaced item dir || dir.whole item.name) dir

equal : (x y : Text) → (x == y) ≡ true → x ≡ y
equal x y h = ground (arith, ==_iff x y, h)

pub merged-Grows : (item : Item) (dir : VersionDir) → Grows dir (merged item dir)
unfolding place exists
merged-Grows item dir name = elim (Bool-cases (name == item.name)) [
  | inl e ↦ (
    λ h. ground (arith, e),
    λ h. ground (arith, e, sym (ap dir.whole (equal name item.name e)) ∙ h),
  )
  | inr n ↦ (λ h. ground (arith, n, h), λ h. ground (arith, n, h))
]

-- Where the merged item is not known to have the source's contents, a folder was there.
older :
    (item : Item) (dir : VersionDir)
    → (is_replaced item dir || dir.whole item.name) ≡ false
    → (is_folder (some item.item_kind) ≡ true)
      × (exists (dir.kind item.name) ≡ true)
      × (dir.whole item.name ≡ false)
unfolding is_replaced
older item dir h = (ground (arith, h), ground (arith, h), ground (arith, h))

merged-here :
    (before : VersionDir) (item : Item) (dir : VersionDir)
    → AsBefore before dir item.name
    → AsBefore before (merged item dir) item.name
unfolding place exists
merged-here before item dir (inl w) = inl (ground (arith, ==_refl item.name, w))
merged-here before item dir (inr (there, size)) =
    elim (Bool-cases (is_replaced item dir || dir.whole item.name)) [
      | inl w ↦ inl (ground (arith, ==_refl item.name, w))
      | inr n ↦
          let (_, old, _) = older item dir n in
          inr (
            ground (arith, ==_refl item.name, there, old),
            λ m h. absurd (ground (arith, ==_refl item.name, n, h)),
          )
    ]

pub merged-Follows :
    (before : VersionDir) (item : Item) (dir : VersionDir)
    → Follows before dir
    → Follows before (merged item dir)
unfolding place
merged-Follows before item dir f name = elim (Bool-cases (name == item.name)) [
  | inl e ↦
      subst (AsBefore before (merged item dir)) (sym (equal name item.name e))
        (merged-here before item dir (f item.name))
  | inr n ↦ elim (f name) [
    | inl w ↦ inl (ground (arith, n, w))
    | inr (there, size) ↦ inr (ground (arith, n, there), λ m h. size m (ground (arith, n, h)))
  ]
]

folder-IsOlder :
    (kind : FileKind) (before : VersionDir) (item : Item)
    → is_folder (some kind) ≡ true
    → exists (before.kind item.name) ≡ true
    → IsOlder kind before item
unfolding is_folder
folder-IsOlder regular_file before item h e = absurd (cc h)
folder-IsOlder folder before item h e = e
folder-IsOlder link before item h e = absurd (cc h)

regular-IsOlder :
    (kind : FileKind) (before : VersionDir) (item : Item)
    → is_regular kind ≡ true
    → before.file_size item.name ≡ some item.size
    → IsOlder kind before item
unfolding is_regular
regular-IsOlder regular_file before item h e = e
regular-IsOlder folder before item h e = absurd (cc h)
regular-IsOlder link before item h e = absurd (cc h)

pub left-IsCopied :
    (before : VersionDir) (item : Item) (dir : VersionDir)
    → Follows before dir
    → (is_regular item.item_kind && is_already_installed item dir) ≡ true
    → IsCopied before dir item
unfolding is_already_installed
left-IsCopied before item dir f h = (
  ground (arith, h),
  elim (f item.name) [
    | inl w ↦ inl w
    | inr (there, size) ↦ inr (
        regular-IsOlder item.item_kind before item (ground (arith, h))
          (size item.size (has_size-some item.size _ (ground (arith, h)))))
  ],
)

pub merged-IsCopied :
    (before : VersionDir) (item : Item) (dir : VersionDir)
    → Follows before dir
    → IsCopied before (merged item dir) item
unfolding place exists
merged-IsCopied before item dir f = (
  ground (arith, ==_refl item.name),
  elim (Bool-cases (is_replaced item dir || dir.whole item.name)) [
    | inl w ↦ inl (ground (arith, ==_refl item.name, w))
    | inr n ↦
        let (is_dir, old, unknown) = older item dir n in
        elim (f item.name) [
          | inl w ↦ absurd (cc (w, unknown))
          | inr (there, size) ↦
              inr (folder-IsOlder item.item_kind before item is_dir (sym there ∙ old))
        ]
  ],
)

pub grown-IsCopied :
    (before : VersionDir) (dir next : VersionDir) (item : Item)
    → Grows dir next
    → IsCopied before dir item
    → IsCopied before next item
grown-IsCopied before dir next item g (e, inl w) = ((g item.name).0 e, inl ((g item.name).1 w))
grown-IsCopied before dir next item g (e, inr o) = ((g item.name).0 e, inr o)
