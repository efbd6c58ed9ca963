-- ===== src/Polars/Fetch/Hiding.antt =====
-- What is left to see of a frame whose columns were hidden.
use bastionlab.Prelude.{
  ℕ, zero, suc, String, ◌≡◌, refl, sym, ap, ◌∙◌, inl, inr, true, false, some, List, [], ◌∷◌, arith,
  eqb, eqb_iff, Bool-cases, Option-cases, ok, ==_iff, contains, nat_eq, string_eq, list_eq,
}
use bastionlab.Polars.Run.{position}
use bastionlab.Polars.Fetch.{Columns, ColumnLaws, hide_column, sanitize_df}

pub position-suc :
    (a x : String) (xs : List String) (i : ℕ)
    → position a (x ∷ xs) ≡ some (suc i)
    → position a xs ≡ some i
unfolding position
position-suc a x xs i h = elim (Option-cases (position a xs)) [
  | inl e ↦ ground arith
  | inr (j, e) ↦ ground arith
]

pub position-zero : (a x : String) (xs : List String) → position a (x ∷ xs) ≡ some 0 → x ≡ a
unfolding position
position-zero a x xs h = elim (Option-cases (position a xs)) [
  | inl e ↦ ground (arith, ==_iff x a)
  | inr (j, e) ↦ ground (arith, ==_iff x a)
]

-- A position tells the name.
position-injective :
    (a b : String) (xs : List String) (i : ℕ)
    → position a xs ≡ some i
    → position b xs ≡ some i
    → a ≡ b
unfolding position
position-injective a b [] i h k = cc
position-injective a b (x ∷ xs) zero h k = sym (position-zero a x xs h) ∙ position-zero b x xs k
position-injective a b (x ∷ xs) (suc i) h k =
    position-injective a b xs i (position-suc a x xs i h) (position-suc b x xs i k)

other :
    (name m : String) (idx i : ℕ) (xs : List String)
    → contains (name ∷ []) m ≡ false
    → position name xs ≡ some idx
    → position m xs ≡ some i
    → eqb idx i ≡ true
    → ⊥
other name m idx i xs h e k same =
    ground (
      arith,
      ==_iff name m,
      position-injective name m xs i (e ∙ ap some ((eqb_iff idx i).0 same)) k,
    )

module _ {D S : Type 0} (columns : Columns D S) (laws : ColumnLaws columns) where
  -- A frame after some names were hidden: the columns are the same ones, those of other names are as
  -- they were, and those of the names hidden are columns of nulls.
  pub record Hides (df df' : D) (names : List String) : Type 0 where
    pub same_names : columns.get_column_names df' ≡ columns.get_column_names df
    pub hidden :
        (name : String) (i : ℕ)
        → contains names name ≡ true
        → position name (columns.get_column_names df) ≡ some i
        → (s : S) × (columns.get_column df' i ≡ some (columns.full_null name s))
    pub kept :
        (name : String) (i : ℕ)
        → contains names name ≡ false
        → position name (columns.get_column_names df) ≡ some i
        → columns.get_column df' i ≡ columns.get_column df i

  set-Hides :
      (name : String) (df : D) (idx : ℕ) (t : S)
      → position name (columns.get_column_names df) ≡ some idx
      → columns.get_column df idx ≡ some t
      → Hides df (columns.set_column df idx (columns.full_null name t)) (name ∷ [])
  set-Hides name df idx t e f = record {
    same_names = laws.names_set df name idx t e;
    hidden = λ m i h k.
        (t, ground (arith, ==_iff name m, laws.column_set df idx i (columns.full_null name t) t f));
    kept = λ m i h k. elim (Bool-cases (eqb idx i)) [
      | inl same ↦ absurd (other name m idx i (columns.get_column_names df) h e k same)
      | inr apart ↦ ground (arith, laws.column_set df idx i (columns.full_null name t) t f)
    ];
  }

  hide_column-Hides :
      (name : String) (df : D)
      → (df' : D) × (hide_column columns name df ≡ ok df') × Hides df df' (name ∷ [])
  unfolding hide_column
  hide_column-Hides name df = elim (Option-cases (position name (columns.get_column_names df))) [
    | inl e ↦ (
      df,
      ground arith,
      record {
        same_names = refl;
        hidden = λ m i h k. ground (arith, ==_iff name m);
        kept = λ m i h k. refl;
      },
    )
    | inr (idx, e) ↦
        let (t, f) = laws.column_at df name idx e in
        (
          columns.set_column df idx (columns.full_null name t),
          ground arith,
          set-Hides name df idx t e f,
        )
  ]

  Hides-trans :
      (df df1 df' : D) (name : String) (names : List String)
      → Hides df df1 (name ∷ [])
      → Hides df1 df' names
      → Hides df df' (name ∷ names)
  Hides-trans df df1 df' name names first second = record {
    same_names = second.same_names ∙ first.same_names;
    hidden = λ m i h k.
        let k1 = ap (position m) first.same_names ∙ k in
        elim (Bool-cases (contains names m)) [
          | inl later ↦ second.hidden m i later k1
          | inr never ↦
              let (s, e) = first.hidden m i (ground arith) k in (s, second.kept m i never k1 ∙ e)
        ];
    kept = λ m i h k.
        second.kept m i (ground arith) (ap (position m) first.same_names ∙ k)
        ∙ first.kept m i (ground arith) k;
  }

  -- Hiding the columns of a list of names never fails. The frame has the same columns as before;
  -- those of the names on the list are columns of nulls, and the others are as they were.
  pub sanitize_df-Hides :
      (df : D) (names : List String)
      → (df' : D) × (sanitize_df columns df names ≡ ok df') × Hides df df' names
  unfolding sanitize_df
  sanitize_df-Hides df [] =
      (df, refl, record { same_names = refl; hidden = λ m i h k. cc; kept = λ m i h k. refl })
  sanitize_df-Hides df (name ∷ names) =
      let (df1, e, first) = hide_column-Hides name df in
      let (df', f, second) = sanitize_df-Hides df1 names in
      (df', ground arith, Hides-trans df df1 df' name names first second)
