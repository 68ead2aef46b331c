-- ===== src/Websocket/Rooms/Nested.antt =====
-- Maps of maps, as rooms.ts keeps them: its rooms' members and its sockets' rooms.
use kenojs.Prelude.{
  ℕ, ◌≡◌, refl, Bool, true, false, not, ◌&&◌, ◌||◌, none, some, List, [], ◌∷◌, is_some,
  if◌then◌else◌, if_rule, inl, inr, Bool-cases, arith, ℕ_key, Key, ◌==◌,
}
use kenojs.Prelude.Maps.{get, set, delete, get-set, get-delete}
use kenojs.Prelude.Text.{text_key, is_empty}
use kenojs.Websocket.Rooms.{or_new}

module _ {μ ℓ} {L : Type μ} {V : Type ℓ} ⦃l : Key L⦄ where
  pub get-empty : (b : L) (inner : List (L × V)) → is_empty inner ≡ true → get b inner ≡ none
  unfolding get
  get-empty b [] e = refl
  get-empty b (x ∷ inner) e = cc

  pub set-filled : (b : L) (v : V) (inner : List (L × V)) → is_empty (set b v inner) ≡ false
  unfolding set
  set-filled b v [] = refl
  set-filled b v ((d, w) ∷ inner) =
      if_rule (λ (m : List (L × V)). is_empty m ≡ false) (l.same d b) (λ e. refl) (λ e. refl)

-- Whether a map has a key in the map under another key.
module _ {κ μ ℓ} {K : Type κ} {L : Type μ} {V : Type ℓ} ⦃k : Key K⦄ ⦃l : Key L⦄ where
  abbrev pub has : K → L → List (K × List (L × V)) → Bool
  has a b m = is_some (get b (or_new (get a m)))

  pub has-set :
      (a c : K) (b d : L) (v : V) (m : List (K × List (L × V)))
      → has c d (set a (set b v (or_new (get a m))) m) ≡ ((k.same a c && l.same b d) || has c d m)
  unfolding get
  has-set a c b d v m = ground (
    arith,
    get-set a c (set b v (or_new (get a m))) m,
    get-set b d v (or_new (get a m)),
    k.same_iff a c,
  )

  pub has-absent :
      (a c : K) (b d : L) (m : List (K × List (L × V)))
      → get a m ≡ none
      → has c d m ≡ (has c d m && not (k.same a c && l.same b d))
  unfolding get
  has-absent a c b d m e = ground (arith, k.same_iff a c)

  -- The inner key goes, and the inner map with its last entry.
  abbrev pub drop_entry : K → L → List (L × V) → List (K × List (L × V)) → List (K × List (L × V))
  drop_entry a b inner m =
      if is_empty (delete b inner) then delete a m else set a (delete b inner) m

  -- No inner map is empty.
  abbrev pub Filled : List (K × List (L × V)) → Type (κ ⊔ (μ ⊔ ℓ))
  Filled m = (a : K) (inner : List (L × V)) → get a m ≡ some inner → is_empty inner ≡ false

  pub set-Filled :
      (a : K) (inner : List (L × V)) (m : List (K × List (L × V)))
      → is_empty inner ≡ false
      → Filled m
      → Filled (set a inner m)
  set-Filled a inner m e f c found h = ground (arith, get-set a c inner m, f c found)

  pub delete-Filled : (a : K) (m : List (K × List (L × V))) → Filled m → Filled (delete a m)
  delete-Filled a m f c found h = ground (arith, get-delete a c m, f c found)

  pub insert-Filled :
      (a : K) (b : L) (v : V) (m : List (K × List (L × V)))
      → Filled m
      → Filled (set a (set b v (or_new (get a m))) m)
  insert-Filled a b v m f = set-Filled a _ m (set-filled b v (or_new (get a m))) f

  pub drop_entry-Filled :
      (a : K) (b : L) (inner : List (L × V)) (m : List (K × List (L × V)))
      → Filled m
      → Filled (drop_entry a b inner m)
  drop_entry-Filled a b inner m f =
      if_rule Filled (is_empty (delete b inner)) (λ e. delete-Filled a m f)
        (λ e. set-Filled a _ m e f)

  pub has-drop_entry :
      (a c : K) (b d : L) (inner : List (L × V)) (m : List (K × List (L × V)))
      → get a m ≡ some inner
      → has c d (drop_entry a b inner m) ≡ (has c d m && not (k.same a c && l.same b d))
  unfolding get
  has-drop_entry a c b d inner m e = elim (Bool-cases (is_empty (delete b inner))) [
    | inl f ↦ ground (
      arith,
      get-delete a c m,
      get-delete b d inner,
      k.same_iff a c,
      get-empty d (delete b inner),
    )
    | inr f ↦ ground (arith, get-set a c (delete b inner) m, get-delete b d inner, k.same_iff a c)
  ]

pub is_some-set {ℓ} :
    {V : Type ℓ} (s t : ℕ) (v : V) (m : List (ℕ × V))
    → is_some (get t (set s v m)) ≡ ((s == t) || is_some (get t m))
is_some-set s t v m = ground (arith, get-set s t v m)
