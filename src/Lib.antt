-- ===== src/Lib.antt =====
-- Cortex RMVM: the relational memory virtual machine, and the planner guard, the brain store and the
-- proxy before it.
--
-- The program. A client sends the kernel a manifest (handles to memories, selectors over them, a
-- budget) and a plan, a list of steps that each define a register. The kernel checks the plan
-- statically, runs the steps in order, and answers with verified assertions, a Merkle proof over them
-- and a rendering, or with a stall or an error. The planner guard turns the JSON of a language model
-- into a plan, checks it against the manifest, and has a fixed plan to fall back to. The gRPC service
-- keeps the handles of stated preferences and offers them as manifests to plan over. The brain store
-- keeps signed and encrypted brains in a home directory, with branches, grants and an audit log. The
-- proxy answers chat completions: it finds the subject of an API key in the brain store, stores the
-- message, asks for a manifest, gets a plan, checks it with the guard and has the kernel execute it.
--
-- The files.
-- - Base: shared names, lists over native numbers, texts, Result, i32 and i64 values, orders.
-- - BTree: BTreeSet and BTreeMap as sorted lists, and the stable sort.
-- - Proto: the messages and enums of crates/rmvm-proto/proto/cortex_rmvm_v3_1.proto as prost generates
--   them, and crates/rmvm-proto/src/lib.rs (Proto/Canonical).
-- - Kernel: crates/rmvm-kernel/src/kernel.rs. Kernel/Types has its types; Budget, Params, Values and
--   Fields its small functions; Static is validate_static; Fetch, Selector, Resolve, Filter, Join,
--   Project and Assert are the exec_ functions of those names; Merkle is build_proof; Render is
--   render_output; Execute is execute. Kernel/Sound, Kernel/Scoping, Kernel/Selection, Kernel/Resolve/*,
--   Kernel/Assert/*, Kernel/Execute/* and Kernel/Merkle/* hold theorems.
-- - Planner: portable-brain-proxy/crates/planner-guard/src/lib.rs. Json, Parse and PlanJson are
--   parse_plan_json and its helpers; Extract is extract_json_object and
--   build_plan_only_prompt; Guard is validate_plan_against_manifest; Fallback is
--   deterministic_plan_from_manifest.
-- - Grpc: crates/rmvm-grpc/src/lib.rs. Service has the state and the handlers append_event, get_manifest
--   and forget; the fourth, execute, is the kernel's; Handles, Forgotten, Stated, Appended and Runs
--   hold theorems.
-- - Brain: portable-brain-proxy/crates/brain-store/src/lib.rs. Types has its records; Vault the
--   functions on keys, ciphertexts and signatures; Disk the files of the home directory and write_json;
--   Slug slugify; State what the edits do to a decrypted state; Resolve list_brains, resolve_brain and
--   the configuration; Store create_brain, export_brain, import_brain and the API keys; Edit load_by_dir,
--   mutate_brain and the five operations that call it. Brain/Vault/Laws, Brain/Disk/Laws, Brain/State/*,
--   Brain/Store/* and Brain/Edit/* hold theorems.
-- - Proxy: portable-brain-proxy/crates/cortex-app/src/proxy.rs and types.rs. Types has the messages, the
--   errors and the configuration; Answer map_execute_response and cortex_headers; Planning resolve_plan
--   and what it calls; Chat handle_chat_completion and resolve_context, in steps that each end with a
--   call (store_and_ask, ask_manifest, run_plan, check_and_execute, call_execute). Proxy/Answer/Statuses,
--   Proxy/Planning/Subjects and Proxy/Chat/* hold theorems.
-- - Examples: concrete inputs and the theorems at them.
--
-- How code corresponds to definitions. A Rust function is the definition of the same name. A function
-- that fails returns a Result with `?` as bind; a Rust panic is a third case of ExecStop, and execute
-- gives none for it. A loop over a list is a recursion on the list with the loop's variables as
-- arguments or in a record (StaticState, ExecState, Bound). The loop over the levels of the Merkle tree
-- is on fuel, the number of leaves, and that is enough since each level is shorter than the one below.
-- A u32 or i32 cast keeps its wrap-around (as_u32, as_i32), an i64 that saturates its bounds, and the
-- service's u64 counters their wrap-around.
--
-- Parameters. 64-bit floating-point arithmetic (Floats), the protobuf encoder, SHA-256 and hex
-- (Hashing, with HashingLaws), the crate regex (Regexes), and serde_json's reader. The brain store's
-- ciphers, signatures, key derivation and encoders are the record Vault, with VaultLaws; the laws hold
-- of ideal functions, in that a signature is good for one payload only. What a call draws (uuids,
-- times, nonces, keys) is an argument. The proxy's RPCs are the record Rmvm, over a state of any type,
-- and base64, serde_json and the HTTP request to the language model the record Outside.
--
-- Not modelled: the gRPC transport, the proxy's listener and command line, and the adapter;
-- BrainStore::new and errors of the file system but a missing or unreadable file; paths, since a brain
-- id is a flat name of a directory, also where it has separators; the SDKs and the conformance harness.
pub mod Base
pub mod BTree
pub mod Proto
pub mod Kernel
pub mod Planner
pub mod Grpc
pub mod Brain
pub mod Proxy
pub mod Examples
