-- ===== src/Polars/Run/Judging.antt =====
-- The verdict that `run` gathers over the uploaded frames of a query.
use bastionlab.Prelude.{
  ◌≤◌, String, ◌≡◌, refl, sym, beq_refl, subst, inl, inr, true, false, some, List, [], ◌∷◌, ◌++◌,
  arith, Bool-cases, ok_or_inv, ok, ok_or, >>=-eq-ok, ◌==◌, ==_iff, contains, nat_eq, string_eq,
  list_eq, contains-append, HashMap, lookup,
}
use bastionlab.Polars.AccessControl.{VerificationResult, StatsEntry, verify, merge_result}
use bastionlab.Polars.AccessControl.Actions.{severity, severity-merge_result}
use bastionlab.Polars.Stats.{DataFrameStats}
use bastionlab.Polars.Plan.Provenance.{has}
use bastionlab.Polars.Run.{
  DataFrameArtifact, DataFrames, no_dataframe, Verdict, stricter, renamed_of, judge,
}

-- The judgement of the frame `k` in the result of a query that has the statistics `table` for its
-- frames, and has renamed columns. `entry` is what the table has for `k`.
pub record Judged {D : Type 0} (dfs : DataFrames D) (table : DataFrameStats)
    (renamed : HashMap String String) (user k : String) (fetchable : VerificationResult)
    (blacklist : List String) : Type 0 where
  pub entry : StatsEntry
  pub artifact : DataFrameArtifact D
  pub check : VerificationResult
  pub known : lookup k table ≡ some entry
  pub held : lookup k dfs ≡ some artifact
  pub verified :
      verify artifact.policy (record { stats = entry; user_id = user; df_identifier = k })
      ≡ ok check
  pub heeded : severity check ≤ severity fetchable
  pub hidden :
      (name : String) → contains artifact.blacklist name ≡ true → contains blacklist name ≡ true
  pub hidden_renamed :
      (original alias : String)
      → contains artifact.blacklist original ≡ true
      → lookup original renamed ≡ some alias
      → contains blacklist alias ≡ true

contains-renamed_of :
    (blacklist : List String) (original alias : String) (renamed : HashMap String String)
    → contains blacklist original ≡ true
    → lookup original renamed ≡ some alias
    → contains (renamed_of blacklist renamed) alias ≡ true
unfolding renamed_of lookup
contains-renamed_of blacklist original alias [] e f = cc
contains-renamed_of blacklist original alias ((key, val) ∷ rest) e f =
    elim (Bool-cases (key == original)) [
      | inl same ↦
          let hides : contains blacklist key ≡ true =
            subst (λ x. contains blacklist x ≡ true) (sym ((==_iff key original).0 same)) e in
          let renames : val ≡ alias = renaming (rw same at f) in
          rw (hides, renames) (ground (arith, beq_refl alias))
      | inr other ↦
          let later = contains-renamed_of blacklist original alias rest e (rw other at f) in
          elim (Bool-cases (contains blacklist key)) [
            | inl hides ↦ rw hides (ground (arith, later))
            | inr shows ↦ rw shows later
          ]
    ]
  where
    renaming : {x y : String} → some x ≡ some y → x ≡ y
    renaming h = cc

module _ {D : Type 0} (dfs : DataFrames D) (user : String) (renamed : HashMap String String) where
  -- A verdict that is at least as strict as another.
  record Within (v v' : Verdict) : Type 0 where
    graver : severity v.fetchable ≤ severity v'.fetchable
    longer : (name : String) → contains v.blacklist name ≡ true → contains v'.blacklist name ≡ true

  abbrev after : Verdict → DataFrameArtifact D → VerificationResult → Verdict
  after v artifact check = record {
    policy = stricter check v.policy artifact.policy;
    blacklist = v.blacklist ++ renamed_of artifact.blacklist renamed ++ artifact.blacklist;
    fetchable = merge_result v.fetchable check;
  }

  judge_inv :
      (id : String) (stats : StatsEntry) (rest : DataFrameStats) (v v' : Verdict)
      → judge dfs user renamed ((id, stats) ∷ rest) v ≡ ok v'
      → (artifact : DataFrameArtifact D) × (check : VerificationResult) × (lookup id dfs
          ≡ some artifact)
        × (verify artifact.policy (record { stats = stats; user_id = user; df_identifier = id })
            ≡ ok check)
        × (judge dfs user renamed rest (after v artifact check) ≡ ok v')
  unfolding judge
  judge_inv id stats rest v v' h =
      let (artifact, e, h') = >>=-eq-ok (ok_or (lookup id dfs) (no_dataframe id)) _ h in
      let (check, f, h'') =
        >>=-eq-ok
          (verify artifact.policy (record { stats = stats; user_id = user; df_identifier = id })) _
          h' in
      (artifact, check, ok_or_inv (lookup id dfs) (no_dataframe id) e, f, h'')

  judge-Within :
      (table : DataFrameStats) (v v' : Verdict)
      → judge dfs user renamed table v ≡ ok v'
      → Within v v'
  unfolding judge
  judge-Within [] v v' h = record { graver = ground arith; longer = λ name e. ground arith }
  judge-Within ((id, stats) ∷ rest) v v' h =
      let (artifact, check, held, verified, h') = judge_inv id stats rest v v' h in
      let later = judge-Within rest (after v artifact check) v' h' in
      record {
        graver = omega (arith, later.graver, severity-merge_result v.fetchable check);
        longer = λ name e. later.longer name (
            ground (
              arith,
              contains-append (v.blacklist ++ renamed_of artifact.blacklist renamed)
                  artifact.blacklist name,
              contains-append v.blacklist (renamed_of artifact.blacklist renamed) name,
            ));
      }

  Judged-rest :
      (k id : String) (stats : StatsEntry) (rest : DataFrameStats) (fetchable : VerificationResult)
      (blacklist : List String)
      → (id == k) ≡ false
      → Judged dfs rest renamed user k fetchable blacklist
      → Judged dfs ((id, stats) ∷ rest) renamed user k fetchable blacklist
  unfolding lookup
  Judged-rest k id stats rest fetchable blacklist other j = record {
    entry = j.entry;
    artifact = j.artifact;
    check = j.check;
    known = rw other j.known;
    held = j.held;
    verified = j.verified;
    heeded = j.heeded;
    hidden = j.hidden;
    hidden_renamed = j.hidden_renamed;
  }

  Judged-first :
      (id : String) (stats : StatsEntry) (rest : DataFrameStats) (v v' : Verdict)
      → judge dfs user renamed ((id, stats) ∷ rest) v ≡ ok v'
      → Judged dfs ((id, stats) ∷ rest) renamed user id v'.fetchable v'.blacklist
  unfolding lookup
  Judged-first id stats rest v v' h =
      let (artifact, check, held, verified, h') = judge_inv id stats rest v v' h in
      let later = judge-Within rest (after v artifact check) v' h' in
      let names = renamed_of artifact.blacklist renamed in
      record {
        entry = stats;
        artifact = artifact;
        check = check;
        known = rw (beq_refl id) refl;
        held = held;
        verified = verified;
        heeded = omega (arith, later.graver, severity-merge_result v.fetchable check);
        hidden = λ name e.
            later.longer name
              (ground (arith, contains-append (v.blacklist ++ names) artifact.blacklist name));
        hidden_renamed = λ original alias e f. later.longer alias (
            ground (
              arith,
              contains-append (v.blacklist ++ names) artifact.blacklist alias,
              contains-append v.blacklist names alias,
              contains-renamed_of artifact.blacklist original alias renamed e f,
            ));
      }

  pub judge-Judged :
      (k : String) (table : DataFrameStats) (v v' : Verdict)
      → judge dfs user renamed table v ≡ ok v'
      → has k table ≡ true
      → Judged dfs table renamed user k v'.fetchable v'.blacklist
  unfolding has lookup
  judge-Judged k [] v v' h e = cc
  judge-Judged k ((id, stats) ∷ rest) v v' h e = elim (Bool-cases (id == k)) [
    | inl same ↦
        subst (λ x. Judged dfs ((id, stats) ∷ rest) renamed user x v'.fetchable v'.blacklist)
          ((==_iff id k).0 same) (Judged-first id stats rest v v' h)
    | inr other ↦
        let (artifact, check, held, verified, h') = judge_inv id stats rest v v' h in
        Judged-rest k id stats rest v'.fetchable v'.blacklist other
          (judge-Judged k rest (after v artifact check) v' h' (ground arith))
  ]
