-- ===== src/Orchestrator/Queue/Order.antt =====
-- The order of the entries of a queue, and what it makes of the entries that compare equal.
use omarchy_hackertyper.Base.{
  ℕ, Bool, true, false, ◌&&◌, List, [], ◌∷◌, ◌++◌, ◌==◌, if◌then◌else◌, leb, Bool-cases, all, keep,
  keep-append, ◌≡◌, refl, sym, ◌∙◌, arith, inl, inr, &&_split,
}
use omarchy_hackertyper.Number.{ℤ, leb_ℤ}
use omarchy_hackertyper.Orchestrator.Queue.{compare_entries, not_after, insert, sort, push}

module _ {ℓ} {A : Type ℓ} (priority : A → ℤ) (created_at : A → ℕ) where
  -- The order that is meant: a higher priority goes ahead; with the same priority, an entry that was
  -- not created later.
  abbrev pub goes_ahead : A → A → Bool
  goes_ahead a b =
      if leb_ℤ (priority b) (priority a)
      then (if leb_ℤ (priority a) (priority b) then leb (created_at a) (created_at b) else true)
      else false

  not_after_lem : (a b : A) → not_after priority created_at a b ≡ goes_ahead a b
  unfolding compare_entries
  not_after_lem a b = ground arith

  goes_ahead_total : (a b : A) → goes_ahead a b ≡ false → goes_ahead b a ≡ true
  goes_ahead_total a b h = ground arith

  goes_ahead_trans :
      (a b c : A) → goes_ahead a b ≡ true → goes_ahead b c ≡ true → goes_ahead a c ≡ true
  goes_ahead_trans a b c h k = ground arith

  -- Every entry goes ahead of all that stand behind it.
  abbrev pub IsSorted : List A → Type 0
  IsSorted [] = Unit
  IsSorted (a ∷ bs) = (all (goes_ahead a) bs ≡ true) × IsSorted bs

  all-insert :
      (p : A → Bool) (a : A) (bs : List A)
      → all p (insert priority created_at a bs) ≡ (p a && all p bs)
  unfolding insert
  all-insert p a [] = refl
  all-insert p a (b ∷ bs) = elim (Bool-cases (not_after priority created_at a b)) [
    | inl e ↦ rw e refl
    | inr e ↦ rw e (ground (arith, all-insert p a bs))
  ]

  all-goes_ahead :
      (a b : A) (bs : List A)
      → goes_ahead a b ≡ true
      → all (goes_ahead b) bs ≡ true
      → all (goes_ahead a) bs ≡ true
  all-goes_ahead a b [] h k = refl
  all-goes_ahead a b (c ∷ cs) h k =
      let (first, rest) = &&_split (goes_ahead b c) (all (goes_ahead b) cs) k in
      rw (goes_ahead_trans a b c h first, all-goes_ahead a b cs h rest) refl

  insert-IsSorted : (a : A) (bs : List A) → IsSorted bs → IsSorted (insert priority created_at a bs)
  unfolding insert
  insert-IsSorted a [] h = (refl, tt)
  insert-IsSorted a (b ∷ bs) h = elim (Bool-cases (not_after priority created_at a b)) [
    | inl e ↦
        let ahead : goes_ahead a b ≡ true = sym (not_after_lem a b) ∙ e in
        rw e (rw (ahead, all-goes_ahead a b bs ahead h.0) refl, h)
    | inr e ↦ rw e (
      all-insert (goes_ahead b) a bs
          ∙ rw (goes_ahead_total a b (sym (not_after_lem a b) ∙ e), h.0) refl,
      insert-IsSorted a bs h.1,
    )
  ]

  sort-IsSorted : (as' : List A) → IsSorted (sort priority created_at as')
  unfolding sort
  sort-IsSorted [] = tt
  sort-IsSorted (a ∷ as') = insert-IsSorted a (sort priority created_at as') (sort-IsSorted as')

  -- The entries with the priority and the time of creation of a given one.
  abbrev pub alike : A → A → Bool
  alike z a =
      leb_ℤ (priority z) (priority a)
      && leb_ℤ (priority a) (priority z)
      && (created_at z == created_at a)

  alike-goes_ahead : (z a b : A) → alike z a ≡ true → alike z b ≡ true → goes_ahead a b ≡ true
  alike-goes_ahead z a b h k = ground arith

  keep-insert :
      (z a : A) (bs : List A)
      → keep (alike z) (insert priority created_at a bs) ≡ keep (alike z) (a ∷ bs)
  unfolding insert
  keep-insert z a [] = refl
  keep-insert z a (b ∷ bs) = elim (Bool-cases (not_after priority created_at a b)) [
    | inl e ↦ rw e refl
    | inr e ↦ rw e (
        behind (alike z a) (alike z b) refl refl (sym (not_after_lem a b) ∙ e) (keep-insert z a bs))
  ]
    where
      behind :
          (p q : Bool)
          → alike z a ≡ p
          → alike z b ≡ q
          → goes_ahead a b ≡ false
          → keep (alike z) (insert priority created_at a bs) ≡ keep (alike z) (a ∷ bs)
          → keep (alike z) (b ∷ insert priority created_at a bs) ≡ keep (alike z) (a ∷ b ∷ bs)
      behind true true h k e ih = let t = alike-goes_ahead z a b h k in cc
      behind true false h k e ih = rw (h, k) (ih ∙ rw h refl)
      behind false q h k e ih = ground (arith, ih, h)

  keep-sort :
      (z : A) (as' : List A) → keep (alike z) (sort priority created_at as') ≡ keep (alike z) as'
  unfolding sort
  keep-sort z [] = refl
  keep-sort z (a ∷ as') =
      keep-insert z a (sort priority created_at as') ∙ ground (arith, keep-sort z as')

  -- What `push` leaves: the entries in order, and those with the same priority and time of creation in
  -- the order in which they came.
  pub record IsQueued (value : A) (entries after : List A) : Type ℓ where
    pub in_order : IsSorted after
    pub first_come :
        (z : A) → keep (alike z) after ≡ keep (alike z) entries ++ keep (alike z) (value ∷ [])

  -- After a `push` every entry has a higher priority than each one behind it, or the same priority and
  -- no later time of creation; and among entries with the same priority and time of creation the order
  -- in which they were pushed is kept, with the new one last. So no entry is lost.
  pub push-IsQueued :
      (value : A) (entries : List A)
      → IsQueued value entries (push priority created_at value entries)
  unfolding push
  push-IsQueued value entries = record {
    in_order = sort-IsSorted (entries ++ value ∷ []);
    first_come =
        λ z. keep-sort z (entries ++ value ∷ []) ∙ keep-append (alike z) entries (value ∷ []);
  }
