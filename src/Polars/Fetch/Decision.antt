-- ===== src/Polars/Fetch/Decision.antt =====
-- Who gets the rows of a data frame.
use bastionlab.Prelude.{
  ◌≤◌, String, ◌≡◌, refl, ap, ◌∙◌, ◌⊎◌, inl, inr, Bool, true, false, Option, none, some, List,
  arith, ok_or_inv, ok_injective, ok, err, panic, ok_or, >>=-eq-ok, nat_eq, string_eq, list_eq,
  lookup,
}
use bastionlab.Common.Status.{Status, Fallible}
use bastionlab.Polars.AccessControl.{log, review, reject, VerificationResult, safe, unsafe}
use bastionlab.Polars.AccessControl.Actions.{severity}
use bastionlab.Polars.Run.{DataFrameArtifact, DataFrames, no_dataframe}
use bastionlab.Polars.Fetch.{
  Columns, sanitize_df, reviewed, DelayedDataFrame, at_once, release, after_review, delayed, get_df,
  FetchStatus,
}

-- Why the rows of an artifact may be given out: its verdict is safe, or only to be logged, or the
-- owner accepted.
abbrev Permitted : VerificationResult → List String → Type 0
Permitted fetchable answers =
    (severity fetchable ≤ 1) ⊎ ((severity fetchable ≡ 2) × (reviewed answers ≡ some true))

some_injective : {A : Type 0} {a b : A} → some a ≡ some b → a ≡ b
some_injective h = cc

module _ {D S : Type 0} (columns : Columns D S) where
  -- The rows that a fetch gives out: of an artifact whose verdict permits it, with the columns of
  -- the blacklist hidden. It is the artifact stored when the frame is given out.
  pub record Released (dfs later : DataFrames D) (identifier : String) (answers : List String)
      (df : D) : Type 0 where
    pub artifact : DataFrameArtifact D
    pub given : DataFrameArtifact D
    pub asked : lookup identifier dfs ≡ some artifact
    pub permitted : Permitted artifact.fetchable answers
    pub stored : (given ≡ artifact) ⊎ (lookup identifier later ≡ some given)
    pub sanitized : sanitize_df columns given.dataframe given.blacklist ≡ ok df

  at_once_inv :
      (fetch_status : FetchStatus) (sanitized : Fallible D) (d : DelayedDataFrame D)
      (answers : List String) (later : DataFrames D) (df : D)
      → at_once columns fetch_status sanitized ≡ ok d
      → d.future answers later ≡ some (ok df)
      → sanitized ≡ ok df
  at_once_inv fetch_status (ok x) d answers later df h g =
      some_injective (ap (λ y. y.future answers later) (ok_injective h) ∙ g)
  at_once_inv fetch_status (err x) d answers later df h g = cc
  at_once_inv fetch_status panic d answers later df h g = cc

  release_inv :
      (identifier : String) (later : DataFrames D) (df : D)
      → release columns identifier later ≡ ok df
      → (given : DataFrameArtifact D) × (lookup identifier later ≡ some given)
        × (sanitize_df columns given.dataframe given.blacklist ≡ ok df)
  unfolding release
  release_inv identifier later df h =
      let (given, e, f) =
        >>=-eq-ok (ok_or (lookup identifier later) (no_dataframe identifier)) _ h in
      (given, ok_or_inv (lookup identifier later) (no_dataframe identifier) e, f)

  never : (e : Status) (df : D) → ◌≡◌ {A = Option (Fallible D)} (some (err e)) (some (ok df)) → ⊥
  never e df h = cc

  review_inv :
      (identifier reason : String) (later : DataFrames D) (df : D) (decision : Option Bool)
      → after_review columns identifier reason decision later ≡ some (ok df)
      → (decision ≡ some true)
        × (given : DataFrameArtifact D) × (lookup identifier later ≡ some given)
        × (sanitize_df columns given.dataframe given.blacklist ≡ ok df)
  unfolding after_review
  review_inv identifier reason later df none h = cc
  review_inv identifier reason later df (some true) h =
      let (given, stored, sanitized) = release_inv identifier later df (some_injective h) in
      (refl, given, stored, sanitized)
  review_inv identifier reason later df (some false) h = absurd (never _ df h)

  -- A fetch gives out rows only of a frame whose verdict is safe or to be logged, or, if it is to be
  -- reviewed, once the owner has accepted; never of one that is to be rejected. The columns of the
  -- blacklist are hidden in what it gives out.
  pub get_df-Released :
      (dfs later : DataFrames D) (identifier : String) (answers : List String)
      (d : DelayedDataFrame D) (df : D)
      → get_df columns dfs identifier ≡ ok d
      → d.future answers later ≡ some (ok df)
      → Released dfs later identifier answers df
  unfolding get_df delayed
  get_df-Released dfs later identifier answers d df h g =
      let (artifact, e, f) =
        >>=-eq-ok (ok_or (lookup identifier dfs) (no_dataframe identifier)) _ h in
      by_verdict artifact (ok_or_inv (lookup identifier dfs) (no_dataframe identifier) e)
        artifact.fetchable refl f
    where
      by_verdict :
          (artifact : DataFrameArtifact D)
          → lookup identifier dfs ≡ some artifact
          → (verdict : VerificationResult) → artifact.fetchable ≡ verdict
          → delayed columns identifier artifact verdict ≡ ok d
          → Released dfs later identifier answers df
      by_verdict artifact e safe v f = record {
        artifact = artifact;
        given = artifact;
        asked = e;
        permitted = inl (rw v (omega arith));
        stored = inl refl;
        sanitized = at_once_inv _ _ d answers later df f g;
      }
      by_verdict artifact e (unsafe log reason) v f = record {
        artifact = artifact;
        given = artifact;
        asked = e;
        permitted = inl (rw v (omega arith));
        stored = inl refl;
        sanitized = at_once_inv _ _ d answers later df f g;
      }
      by_verdict artifact e (unsafe review reason) v f =
          let (accepted, given, stored, sanitized) =
            review_inv identifier reason later df (reviewed answers)
              (ap (λ y. y.future answers later) (ok_injective f) ∙ g) in
          record {
            artifact = artifact;
            given = given;
            asked = e;
            permitted = inr (rw v refl, accepted);
            stored = inr stored;
            sanitized = sanitized;
          }
      by_verdict artifact e (unsafe reject reason) v f =
          absurd (never _ df (ap (λ y. y.future answers later) (ok_injective f) ∙ g))
