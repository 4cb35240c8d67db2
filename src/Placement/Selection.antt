-- ===== src/Placement/Selection.antt =====
-- What the loop of `select_for_shard` gives: a part of the nodes, within the limits on datacenters and
-- racks, and with no node passed over that the limits would have allowed.
use mathlib.Core.List.{Memᴰ}
use mathlib.Core.List.Memᴰ.{head, tail}
use cyxcloud.Prelude.{
  ℕ, ◌+◌, ◌≤◌, ◌<◌, Bool, true, false, Option, none, some, List, [], ◌∷◌, ◌++◌, ◌≡◌, ◌⊎◌, inl, inr,
  refl, ap, sym, ◌∙◌, subst, leb, if◌then◌else◌, length, length-append, All, Key, ◌=?◌, string_key,
  integer_key, pair_key, arith,
}
use cyxcloud.Prelude.Assoc.{Map, get, get-insert}
use cyxcloud.Prelude.Parts.{Part, Part-stop, Part-insert}
use cyxcloud.Placement.{
  PlacementConfig, PlacementNode, DcUsage, RackUsage, dc_of, rack_of, used, usage_or_zero,
  has_room_for, count_one, pick,
}

abbrev pub carries : {K : Type 0} ⦃e : Key K⦄ → Option K → K → ℕ
carries none k = 0
carries (some j) k = if j =? k then 1 else 0

module _ {A K : Type 0} ⦃e : Key K⦄ (label : A → Option K) where
  -- How many elements have the label.
  abbrev pub count_label : K → List A → ℕ
  count_label k [] = 0
  count_label k (x ∷ xs) = carries (label x) k + count_label k xs

  -- No label occurs more often than the limit.
  abbrev pub Within : ℕ → List A → Type 0
  Within limit xs = (k : K) → count_label k xs ≤ limit

  -- The element has a label that already occurs as often as the limit.
  abbrev pub IsFull : ℕ → List A → A → Type 0
  IsFull limit xs x = (k : K) × (label x ≡ some k) × (limit ≤ count_label k xs)

  -- The map counts the labels.
  abbrev pub Tracks : Map K ℕ → List A → Type 0
  Tracks usage xs = (k : K) → used k usage ≡ count_label k xs

  count_label-append :
      (k : K) (xs ys : List A) → count_label k (xs ++ ys) ≡ count_label k xs + count_label k ys
  count_label-append k [] ys = omega arith
  count_label-append k (x ∷ xs) ys = omega (arith, count_label-append k xs ys)

  used-count_one :
      (o : Option K) (usage : Map K ℕ) (k : K)
      → used k (count_one o usage) ≡ used k usage + carries o k
  used-count_one none usage k = omega arith
  used-count_one (some j) usage k =
      ap usage_or_zero (get-insert j k (used j usage + 1) usage) ∙ ground (arith, e.same_iff j k)

  count_one-Tracks :
      (x : A) (usage : Map K ℕ) (xs : List A)
      → Tracks usage xs
      → Tracks (count_one (label x) usage) (xs ++ (x ∷ []))
  count_one-Tracks x usage xs h k =
      omega (arith, used-count_one (label x) usage k, h k, count_label-append k xs (x ∷ []))

  room_for :
      (o : Option K) (limit : ℕ) (usage : Map K ℕ) (n : K → ℕ)
      → ((k : K) → used k usage ≡ n k)
      → ((k : K) → n k ≤ limit)
      → has_room_for limit o usage ≡ true
      → (k : K) → n k + carries o k ≤ limit
  room_for none limit usage n h w r k = omega (arith, w k)
  room_for (some j) limit usage n h w r k = ground (arith, e.same_iff j k, h k, h j, w k)

  append-Within :
      (x : A) (limit : ℕ) (usage : Map K ℕ) (xs : List A)
      → Tracks usage xs
      → Within limit xs
      → has_room_for limit (label x) usage ≡ true
      → Within limit (xs ++ (x ∷ []))
  append-Within x limit usage xs h w r k = omega (
    arith,
    count_label-append k xs (x ∷ []),
    room_for (label x) limit usage (λ j. count_label j xs) h w r k,
  )

  full_of :
      (o : Option K) (limit : ℕ) (usage : Map K ℕ)
      → has_room_for limit o usage ≡ false
      → (k : K) × (o ≡ some k) × (limit ≤ used k usage)
  full_of none limit usage h = absurd (ground arith)
  full_of (some k) limit usage h = (k, refl, ground arith)

  no_room-IsFull :
      (x : A) (limit : ℕ) (usage : Map K ℕ) (xs ys : List A)
      → Tracks usage xs
      → has_room_for limit (label x) usage ≡ false
      → IsFull limit (xs ++ ys) x
  no_room-IsFull x limit usage xs ys h r =
      let (k, e1, e2) = full_of (label x) limit usage r in
      (k, e1, omega (arith, h k, count_label-append k xs ys, e2))

  pub nil-Tracks : Tracks [] []
  nil-Tracks k = unfold get in refl

-- The three tests of one turn of the loop.
cases_of_turn :
    {A : Type 0} (P : A → Type 0) (a b c : Bool) (x y z : A)
    → (a ≡ true → P x)
    → (a ≡ false → b ≡ true → c ≡ true → P y)
    → (a ≡ false → (b ≡ false) ⊎ (c ≡ false) → P z)
    → P (if a then x else if b then if c then y else z else z)
cases_of_turn P true b c x y z f g h = f refl
cases_of_turn P false true true x y z f g h = g refl refl refl
cases_of_turn P false true false x y z f g h = h refl (inr refl)
cases_of_turn P false false c x y z f g h = h refl (inl refl)

append_one : {A : Type 0} (x : A) (xs ys : List A) → (xs ++ (x ∷ [])) ++ ys ≡ xs ++ (x ∷ ys)
append_one x [] ys = refl
append_one x (z ∷ xs) ys = ap (z ∷◌) (append_one x xs ys)

append_nil : {A : Type 0} (xs : List A) → xs ++ [] ≡ xs
append_nil [] = refl
append_nil (x ∷ xs) = ap (x ∷◌) (append_nil xs)

Mem_middle : {A : Type 0} (x : A) (xs ys : List A) → Memᴰ x (xs ++ (x ∷ ys))
Mem_middle x [] ys = head refl
Mem_middle x (z ∷ xs) ys = tail (Mem_middle x xs ys)

one_more :
    {A : Type 0} {count : ℕ} (x : A) (xs : List A)
    → leb count (length xs) ≡ false
    → length (xs ++ (x ∷ [])) ≤ count
one_more x xs t = ground (arith, length-append xs (x ∷ []))

module _ {F : Type 0} (c : PlacementConfig F) (count : ℕ) where
  pick_by :
      (P : List (PlacementNode F) → Type 0) (n : PlacementNode F) (ns : List (PlacementNode F))
      (dcs : DcUsage) (racks : RackUsage) (selected : List (PlacementNode F))
      → (leb count (length selected) ≡ true → P selected)
      → (leb count (length selected) ≡ false
          → has_room_for c.max_shards_per_dc (dc_of n) dcs ≡ true
          → has_room_for c.max_shards_per_rack (rack_of n) racks ≡ true
          → P (
              pick c count ns
                (count_one (dc_of n) dcs)
                (count_one (rack_of n) racks)
                (selected ++ (n ∷ []))))
      → (leb count (length selected) ≡ false
          → (has_room_for c.max_shards_per_dc (dc_of n) dcs ≡ false)
            ⊎ (has_room_for c.max_shards_per_rack (rack_of n) racks ≡ false)
          → P (pick c count ns dcs racks selected))
      → P (pick c count (n ∷ ns) dcs racks selected)
  unfolding pick
  pick_by P n ns dcs racks selected f g h =
      cases_of_turn P (leb count (length selected)) (has_room_for c.max_shards_per_dc (dc_of n) dcs)
        (has_room_for c.max_shards_per_rack (rack_of n) racks) _ _ _ f g h

  pub pick-Part :
      (ns : List (PlacementNode F)) (dcs : DcUsage) (racks : RackUsage)
      (selected : List (PlacementNode F))
      → Part (pick c count ns dcs racks selected) (selected ++ ns)
  unfolding pick
  pick-Part [] dcs racks selected = Part-stop selected []
  pick-Part (n ∷ ns) dcs racks selected =
      pick_by (λ r. Part r (selected ++ (n ∷ ns))) n ns dcs racks selected
        (λ t. Part-stop selected (n ∷ ns))
        (λ t u v.
          subst (Part _) (append_one n selected ns) (pick-Part ns _ _ (selected ++ (n ∷ []))))
        (λ t u. Part-insert n _ selected ns (pick-Part ns dcs racks selected))

  pub length-pick :
      (ns : List (PlacementNode F)) (dcs : DcUsage) (racks : RackUsage)
      (selected : List (PlacementNode F))
      → length selected ≤ count
      → length (pick c count ns dcs racks selected) ≤ count
  unfolding pick
  length-pick [] dcs racks selected h = h
  length-pick (n ∷ ns) dcs racks selected h =
      pick_by (λ r. length r ≤ count) n ns dcs racks selected (λ t. h)
        (λ t u v. length-pick ns _ _ (selected ++ (n ∷ [])) (one_more n selected t))
        (λ t u. length-pick ns dcs racks selected h)

  pub pick-Within :
      (ns : List (PlacementNode F)) (dcs : DcUsage) (racks : RackUsage)
      (selected : List (PlacementNode F))
      → Tracks dc_of dcs selected
      → Tracks rack_of racks selected
      → Within dc_of c.max_shards_per_dc selected
      → Within rack_of c.max_shards_per_rack selected
      → Within dc_of c.max_shards_per_dc (pick c count ns dcs racks selected)
        × Within rack_of c.max_shards_per_rack (pick c count ns dcs racks selected)
  unfolding pick
  pick-Within [] dcs racks selected d r wd wr = (wd, wr)
  pick-Within (n ∷ ns) dcs racks selected d r wd wr =
      pick_by (λ s. Within dc_of c.max_shards_per_dc s × Within rack_of c.max_shards_per_rack s) n
        ns dcs racks selected (λ t. (wd, wr))
        (λ t u v.
          pick-Within ns _ _ (selected ++ (n ∷ [])) (count_one-Tracks dc_of n dcs selected d)
            (count_one-Tracks rack_of n racks selected r)
            (append-Within dc_of n c.max_shards_per_dc dcs selected d wd u)
            (append-Within rack_of n c.max_shards_per_rack racks selected r wr v))
        (λ t u. pick-Within ns dcs racks selected d r wd wr)

  -- What is selected stays selected.
  pick_grows :
      (ns : List (PlacementNode F)) (dcs : DcUsage) (racks : RackUsage)
      (selected : List (PlacementNode F))
      → (more : List (PlacementNode F)) × (pick c count ns dcs racks selected ≡ selected ++ more)
  unfolding pick
  pick_grows [] dcs racks selected = ([], sym (append_nil selected))
  pick_grows (n ∷ ns) dcs racks selected =
      pick_by (λ s. (more : List (PlacementNode F)) × (s ≡ selected ++ more)) n ns dcs racks
        selected (λ t. ([], sym (append_nil selected)))
        (λ t u v.
          let (more, e) = pick_grows ns _ _ (selected ++ (n ∷ [])) in
          (n ∷ more, e ∙ append_one n selected more))
        (λ t u. pick_grows ns dcs racks selected)

  -- A node is selected, or its datacenter or its rack is full.
  abbrev pub IsServed : List (PlacementNode F) → PlacementNode F → Type 0
  IsServed s n =
      Memᴰ n s ⊎ IsFull dc_of c.max_shards_per_dc s n ⊎ IsFull rack_of c.max_shards_per_rack s n

  pub pick-IsServed :
      (ns : List (PlacementNode F)) (dcs : DcUsage) (racks : RackUsage)
      (selected : List (PlacementNode F))
      → Tracks dc_of dcs selected
      → Tracks rack_of racks selected
      → length (pick c count ns dcs racks selected) < count
      → All (IsServed (pick c count ns dcs racks selected)) ns
  unfolding pick
  pick-IsServed [] dcs racks selected d r = λ h. tt
  pick-IsServed (n ∷ ns) dcs racks selected d r =
      pick_by (λ s. length s < count → All (IsServed s) (n ∷ ns)) n ns dcs racks selected
        (λ t h. absurd (ground arith))
        (λ t u v h.
          let (more, e) = pick_grows ns _ _ (selected ++ (n ∷ [])) in
          (
            inl (
                subst (Memᴰ n) (sym (e ∙ append_one n selected more)) (Mem_middle n selected more)),
            pick-IsServed ns _ _ (selected ++ (n ∷ [])) (count_one-Tracks dc_of n dcs selected d)
                (count_one-Tracks rack_of n racks selected r) h,
          ))
        (λ t u h.
          let (more, e) = pick_grows ns dcs racks selected in
          (inr (full_one more e u), pick-IsServed ns dcs racks selected d r h))
    where
      full_one :
          (more : List (PlacementNode F))
          → pick c count ns dcs racks selected ≡ selected ++ more
          → (has_room_for c.max_shards_per_dc (dc_of n) dcs ≡ false)
            ⊎ (has_room_for c.max_shards_per_rack (rack_of n) racks ≡ false)
          → IsFull dc_of c.max_shards_per_dc (pick c count ns dcs racks selected) n
            ⊎ IsFull rack_of c.max_shards_per_rack (pick c count ns dcs racks selected) n
      full_one more e (inl u) = inl (
          subst (λ s. IsFull dc_of c.max_shards_per_dc s n) (sym e)
            (no_room-IsFull dc_of n c.max_shards_per_dc dcs selected more d u))
      full_one more e (inr u) = inr (
          subst (λ s. IsFull rack_of c.max_shards_per_rack s n) (sym e)
            (no_room-IsFull rack_of n c.max_shards_per_rack racks selected more r u))
