-- ===== src/Polars/AggCheck/Tests.antt =====
-- Expressions of queries.
use bastionlab.Prelude.{◌≡◌, true, arith, ok, nat_eq, string_eq, list_eq}
use bastionlab.Polars.AggCheck.{
  Expr, column, literal, alias_, binary_expr, function, agg, list, reducing, end, expr,
  expr_agg_check,
}
use bastionlab.Polars.AggCheck.Single.{
  aggregates, expr_agg_check-aggregates, expr_agg_check-function, Single, depth,
}

-- `(col("age").mean() + lit(1)).alias("x")`, with the mean in a list.
abbrev mean : Expr
mean = alias_ (binary_expr (agg (list (agg reducing))) literal) "x"

expr_agg_check-aggregates_example : expr_agg_check 2 mean ≡ ok true
unfolding aggregates Single depth
expr_agg_check-aggregates_example = expr_agg_check-aggregates mean 2 (tt, tt) (omega arith)

-- `col("age").fill_null(lit(0))`
expr_agg_check-function_example :
    expr_agg_check 1 (function (expr (column "age") (expr literal end))) ≡ ok true
unfolding aggregates Single depth
expr_agg_check-function_example =
    expr_agg_check-function (column "age") literal 1 tt tt (omega arith)
