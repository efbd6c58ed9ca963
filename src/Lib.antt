-- ===== src/Lib.antt =====
-- BastionLab: a server that holds data frames and models for their owners, and answers queries on
-- them under the owners' policies.
--
-- A client asks the session service for a challenge, signs it, and gets a session token. Every other
-- service stands behind an interceptor that looks the token up. The polars service runs composite
-- plans of the client on uploaded data frames, and judges each result by the policies of the frames
-- that it read. The torch service stores models and datasets as sequences of sized objects. A tensor
-- of a dataset is read through a privacy guard, which charges the dataset's privacy context.
--
-- Common (server/bastionlab_common/src):
--   Common.Auth                  auth.rs, KeyManagement without the loading of its files
--   Common.Session               session.rs, SessionManager: one definition for each method;
--                                create_session is create_session, with create_open and create_signed
--                                for its two halves and open_session for its end
-- Gateway                        server/src/main.rs, TokenValidator::call; Gateway.Replay, what comes after
--                                a request for a session
-- Polars (server/bastionlab_polars/src):
--   Polars.AccessControl         access_control.rs: Rule::verify is verify_rule, with
--                                verify_sub_rules for its loop; the three `merge` methods are
--                                merge_action, merge_policy and merge_result
--   Polars.AggCheck              composite_plan.rs, expr_agg_check, over visitable.rs
--   Polars.Stats                 composite_plan.rs, DataFrameStats
--   Polars.Plan                  composite_plan.rs, initialize_plan, over visitable.rs
--   Polars.Run                   composite_plan.rs, CompositePlan::run: one definition for each segment
--   Polars.Fetch                 lib.rs, get_df, with the owner's review, and utils.rs, sanitize_df
--   Polars.Stream                serialization.rs
--   Polars.Query                 lib.rs, run_query up to the insertion of its result
--   Polars.Service               lib.rs, the other handlers and what they call
-- Learning (server/bastionlab_learning/src):
--   Learning.Bytes               serialization.rs
--   Learning.Numbers             the parameters: floating-point numbers and tensors
--   Learning.Privacy             data/privacy_guard.rs: contexts and budgets; Guards reads a guarded
--                                value, Operations and Binary compute with guards, one definition for
--                                each method, and defer, defer_binary and defer_loss for the macros;
--                                Ledger is the audit that the contexts are compared with
--   Learning.Iterator            data/dataset.rs, DatasetIter; Learning.Data, the creation of datasets;
--                                Learning.Loading, their reading from and writing to byte objects
--   Learning.CheckPoints         nn/module.rs, CheckPoint
--   Learning.Metrics, Procedures, Training
--                                procedures.rs: metrics; testers, with the forward pass of nn/module.rs;
--                                trainers, whose optimizer is an interface
--   Learning.Optim               optim/mod.rs and sgd.rs: saved statistics, and the update by SGD
-- Torch (server/bastionlab_torch/src):
--   Torch.Stream                 storage.rs, serialization.rs and utils.rs, tcherror_to_status: artifacts
--                                and their streams
--   Torch.State, Service, Transfers
--                                lib.rs: the state and its stores, the handlers
--                                that train, test, list and delete, and those that move data; Torch.Names,
--                                utils.rs and the names of devices
--   Torch.Runs                   learning.rs: what the tasks report; Torch.Histories, the steps of the
--                                service in any order
--
-- State. A method that changes the server's state is an Action (Common.Action): a function of the
-- state that gives an outcome and the new state, in which what was written before an error stays
-- written. An outcome is a value, a status, or a panic. A method is one step of a
-- history of the server (Gateway.Histories), but delete_module, which takes two locks one after the
-- other, is two (Torch.Histories). A hash map is an association list whose order stands for the order of
-- iteration. Times are nanoseconds. The removal of a file may fail, which the code ignores.
--
-- The torch service keeps binaries, checkpoints, datasets, tensors and runs under identifiers, the call
-- number n of Uuid::new_v4 giving the n-th of a sequence. A training or testing task is spawned by its
-- handler and reports later, as a step of its own, on the run that it was given. A conversion of a
-- tensor may panic, which poisons its lock and that of the tensors; other poisoned locks are not
-- modelled, so nothing is said of the torch service after another panic.
--
-- Machine words. Sizes and factors are numbers below 2^64, and products wrap, as they do in the release
-- build that the Makefile of the server makes.
--
-- Fuel. objects counts rounds of a loop that takes at least eight bytes each. expr_agg_check counts
-- calls nested in aggregations, so more than the depth of the expression is enough. batches counts
-- rounds of the iterator, each of which takes a batch of indexes; take_objects counts objects,
-- and more than the bytes is enough. next_step counts the trainer's calls of itself, at most one for
-- each epoch that is left.
--
-- Parameters. Signatures and key encodings (Crypto), the encoding of messages (Encoder), the keys of
-- artifacts, the text of the errors of tch, the random generator (Draws: failures, and then bytes),
-- and polars, tch, base64, regex and serde_json (Engine, Frames, Columns and Codec; ColumnLaws says
-- what the hiding of columns relies on). The variants of a polars expression or plan are those that
-- visitable.rs names. The conversions between series and tensors (common_conversions.rs) are fields
-- of Frames too. The lines that the owner enters during a review are a list, and a future without a
-- result is one that still waits. Files are their bytes, by path; an attempt to write may fail at
-- each of its calls (Disk). Floats and Tensors are what Rust and tch give for f32, f64 and
-- tch::Tensor, the state of the random generator included; Archive reads and writes named tensors.
-- Backend, Describing and Autograd are what else the torch service and its tasks have from tch: modules,
-- devices, the names of kinds, the forward pass and the gradients. Optimizer is the trait of the crate.
--
-- Sharing. A privacy context and a tensor behind a lock stand at addresses, which are numbers; an
-- Arc is an address, and two are compared by it. A lock that the same thread takes twice panics.
--
-- Not modelled: Adam, the parameters that an optimizer changes, the contexts that a task builds
-- from its configuration, arrays and their splitting, the loading of saved frames, of keys and of configuration, and telemetry. The text of the error for a challenge that does not decode
-- leaves out the debug form of the value.
pub mod Prelude
pub mod Common
pub mod Gateway
pub mod Learning
pub mod Polars
pub mod Torch
