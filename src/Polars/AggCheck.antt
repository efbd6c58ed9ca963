-- ===== src/Polars/AggCheck.antt =====
-- server/bastionlab_polars/src/composite_plan.rs, `expr_agg_check`, over the traversal of
-- server/bastionlab_polars/src/visitable.rs: whether an expression of a query aggregates rows.
pub mod Single
pub mod Fuel
mod Tests
use bastionlab.Prelude.{
  ℕ, zero, suc, String, Bool, true, false, ◌&&◌, List, [], ◌∷◌, ok, err, panic, contains, nat_eq,
  string_eq, list_eq, concat,
}
use bastionlab.Common.Status.{Status, status, Fallible, invalid_argument}
use bastionlab.Common.Action.{Action, pure, raise, lift, ◌>>=◌, ◌>>◌}

-- `polars::Expr`, with the variants that the traversal names and the parts that it reads. The
-- others carry the text of their debug form.
mutual
  pub data Expr : Type 0 where
    column : String → Expr
    columns dtype_column wildcard nth literal count : Expr
    alias_ : Expr → String → Expr
    cast sort explode exclude keep_name : Expr → Expr
    binary_expr take_ filter : Expr → Expr → Expr
    sort_by window : Expr → Exprs → Expr
    function : Exprs → Expr
    agg : AggExpr → Expr
    ternary slice : Expr → Expr → Expr → Expr
    unsupported : String → Expr

  pub data AggExpr : Type 0 where
    list agg_groups : Expr → AggExpr
    reducing : AggExpr

  pub data Exprs : Type 0 where
    end : Exprs
    expr : Expr → Exprs → Exprs

-- `Visitable::visit` of an expression: its parts from left to right, then itself.
module _ {S : Type 0} (f : Expr → Action S (Unit {0})) where
  unfoldable mutual
    pub visit : Expr → Action S (Unit {0})
    visit (column name) = f (column name)
    visit columns = f columns
    visit dtype_column = f dtype_column
    visit wildcard = f wildcard
    visit nth = f nth
    visit literal = f literal
    visit count = f count
    visit (alias_ nested name) = do visit nested; f (alias_ nested name)
    visit (cast e) = do visit e; f (cast e)
    visit (sort e) = do visit e; f (sort e)
    visit (explode e) = do visit e; f (explode e)
    visit (exclude e) = do visit e; f (exclude e)
    visit (keep_name e) = do visit e; f (keep_name e)
    visit (binary_expr left right) = do visit left; visit right; f (binary_expr left right)
    visit (take_ e idx) = do visit e; visit idx; f (take_ e idx)
    visit (filter e by) = do visit e; visit by; f (filter e by)
    visit (sort_by e by) = do visit e; visit_all by; f (sort_by e by)
    visit (window e by) = do visit e; visit_all by; f (window e by)
    visit (function es) = do visit_all es; f (function es)
    visit (agg a) = f (agg a)
    visit (ternary p t e) = do visit p; visit t; visit e; f (ternary p t e)
    visit (slice e o l) = do visit e; visit o; visit l; f (slice e o l)
    visit (unsupported text) = raise (
        status invalid_argument
          (concat ("Logical plan contains unsupported variants: " ∷ text ∷ [])))

    pub visit_all : Exprs → Action S (Unit {0})
    visit_all end = pure tt
    visit_all (expr e es) = do visit e; visit_all es

-- `Vec::push`, and `Vec::pop` with `unwrap`.
abbrev push : Bool → Action (List Bool) (Unit {0})
push b s = (ok tt, b ∷ s)

abbrev pub pop : Action (List Bool) Bool
pop [] = (panic, [])
pop (b ∷ s) = (ok b, s)

-- The closure that `expr_agg_check` visits with.
unfoldable pub agg_step : (Expr → Fallible Bool) → Expr → Action (List Bool) (Unit {0})
agg_step check (column name) = push false
agg_step check columns = push false
agg_step check dtype_column = push false
agg_step check wildcard = push false
agg_step check nth = push false
agg_step check literal = push true
agg_step check count = push true
agg_step check (agg (list e)) = do b ← lift (check e); push b
agg_step check (agg (agg_groups e)) = do b ← lift (check e); push b
agg_step check (agg reducing) = push true
agg_step check (binary_expr l r) = do right_agg ← pop; left_agg ← pop; push (right_agg && left_agg)
agg_step check (take_ e i) = do pop; expr_agg ← pop; push expr_agg
agg_step check (sort_by e by) = do pop; expr_agg ← pop; push expr_agg
agg_step check (filter e by) = do pop; expr_agg ← pop; push expr_agg
agg_step check (window e by) = do pop; expr_agg ← pop; push expr_agg
agg_step check (ternary p t e) = do
  falsy_agg ← pop
  truthy_agg ← pop
  pop
  push (truthy_agg && falsy_agg)
agg_step check (slice e o l) = do pop; pop; input_agg ← pop; push input_agg
agg_step check _ = pure tt

-- Each level of fuel is one nested call; without fuel the call does not come back.
unfoldable pub expr_agg_check : ℕ → Expr → Fallible Bool
expr_agg_check zero e = panic
expr_agg_check (suc fuel) e = ((visit (agg_step (expr_agg_check fuel)) e >> pop) []).0

unfoldable pub exprs_agg_check : ℕ → List Expr → Fallible Bool
exprs_agg_check fuel [] = ok true
exprs_agg_check fuel (e ∷ es) =
    let rest = exprs_agg_check fuel es in
    elim (expr_agg_check fuel e) [
      | ok true ↦ rest
      | ok false ↦ ok false
      | err x ↦ err x
      | panic ↦ panic
    ]
