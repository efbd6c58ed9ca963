-- ===== src/Polars/Query.antt =====
-- server/bastionlab_polars/src/lib.rs, `run_query`, up to the insertion of its result.
use bastionlab.Prelude.{
  ℕ, String, ◌≡◌, sym, ap, ◌∙◌, Option, List, [], ◌∷◌, ok_injective, Outcome, ok, ◌>>=◌, map_err,
  >>=-eq-ok, nat_eq, string_eq, list_eq, concat,
}
use bastionlab.Common.Status.{Status, status, Fallible, invalid_argument, internal}
use bastionlab.Common.Session.{SessionManager, Request, get_token, get_user_id}
use bastionlab.Polars.Run.{DataFrameArtifact, DataFrames, CompositePlanSegment, Frames, run}
use bastionlab.Polars.Stream.{Codec, hash_dataset}

-- `get_df_header`, with the text of a frame's schema.
abbrev pub get_df_header : {D : Type 0} → (D → Outcome String String) → D → Fallible String
get_df_header schema df =
    map_err (λ e. status internal (concat ("Could not serialize data frame header: " ∷ e ∷ [])))
      (schema df)

abbrev hash_error : String → Status
hash_error e = status internal (concat ("Polars error: " ∷ e ∷ []))

abbrev plan_error : String → String → Status
plan_error text e =
    status invalid_argument (concat ("Could not deserialize composite plan: " ∷ e ∷ text ∷ []))

module _ {D S T M : Type 0} (frames : Frames D S T M) (codec : Codec D)
    (schema : D → Outcome String String) (fuel : ℕ)
    (from_str : String → Outcome String (List (CompositePlanSegment D))) where
  -- The client's token, the result, and its header.
  unfoldable pub answer :
      SessionManager
      → DataFrames D
      → Request String
      → Fallible (Option (List ℕ) × DataFrameArtifact D × String)
  answer sess dfs request = do
    token ← get_token sess request
    plan ← map_err (plan_error request.message) (from_str request.message)
    user_id ← get_user_id sess token
    res ← run frames fuel dfs user_id plan
    hash ← map_err hash_error (hash_dataset codec res.dataframe)
    header ← get_df_header schema res.dataframe
    ok (token, res, header)

  -- How an answer came about.
  pub record Answered (sess : SessionManager) (dfs : DataFrames D) (request : Request String)
      (token : Option (List ℕ)) (result : DataFrameArtifact D) : Type 0 where
    pub plan : List (CompositePlanSegment D)
    pub user : String
    pub identified : get_token sess request ≡ ok token
    pub parsed : map_err (plan_error request.message) (from_str request.message) ≡ ok plan
    pub known : get_user_id sess token ≡ ok user
    pub ran : run frames fuel dfs user plan ≡ ok result

  pub answer_inv :
      (sess : SessionManager) (dfs : DataFrames D) (request : Request String)
      {token : Option (List ℕ)} {result : DataFrameArtifact D} {header : String}
      → answer sess dfs request ≡ ok (token, result, header)
      → Answered sess dfs request token result
  unfolding answer
  answer_inv sess dfs request {token} {result} {header} h =
      let (t, e1, h1) = >>=-eq-ok (get_token sess request) _ h in
      let (plan, e2, h2) =
        >>=-eq-ok (map_err (plan_error request.message) (from_str request.message)) _ h1 in
      let (user, e3, h3) = >>=-eq-ok (get_user_id sess t) _ h2 in
      let (res, e4, h4) = >>=-eq-ok (run frames fuel dfs user plan) _ h3 in
      let (hash, e5, h5) = >>=-eq-ok (map_err hash_error (hash_dataset codec res.dataframe)) _ h4 in
      let (header, e6, h6) = >>=-eq-ok (get_df_header schema res.dataframe) _ h5 in
      let same = ok_injective h6 in
      record {
        plan = plan;
        user = user;
        identified = e1 ∙ ap (λ x. ok x.0) same;
        parsed = e2;
        known = sym (ap (λ x. get_user_id sess x.0) same) ∙ e3;
        ran = e4 ∙ ap (λ x. ok x.1) same;
      }
