-- ===== src/Lib.antt =====
-- A model of the Go automatic instrumentation: the tool that matches instrumentation rules against
-- a build and prepares it (tool/), and the runtime that the instrumented program calls (pkg/).
--
-- The tool runs `go build` dry (Preprocess/BuildArgs), reads the compile commands out of its log
-- (Util/Commands), and asks the matcher for the rules that apply to each (Match). What matched is a
-- rule bundle (Resource/Bundle), and the build with toolexec changes the bodies of the functions in
-- it (Instrument). go.mod and its neighbours are backed up before they are changed and restored at
-- the end (Preprocess/Backup). In the instrumented program an instrumenter starts and ends a span
-- for every request (Instrumenter), unless one for the same key is open (Instrumenter/Suppressor);
-- the open spans of a goroutine are kept in its trace context (TraceContext). What an instrumenter
-- says of a request, and the duration metrics that listen to it, follow the semantic conventions
-- (Semconv); the hooks of two libraries are the clients of both (DatabaseSql, NetHttp).
--
-- Files and the code they model:
--   Config                  tool/config/config.go
--   Resource/RuleDef        tool/resource/ruledef.go: the rules and Verify
--   Resource/Bundle         tool/resource/bundle.go: RuleBundle and the operations that fill it
--   Match/Version           tool/preprocess/match.go: extractVersion, splitVersionRange, matchVersion
--   Match/Load              tool/preprocess/match.go: loadRuleRaw to findAvailableRules
--   Match/Decl              tool/util/ast.go: MatchFuncDecl, MatchStructDecl
--   Match/Vendor            tool/preprocess/match.go: findVendorModuleVersion, parseVendorModules
--   Match/Select            tool/preprocess/match.go: newRuleMatcher, match, findFlagValue
--   Util/Commands           tool/util/shared.go: AssertGoBuild, IsCompileCommand, SplitCmds
--   Preprocess/FindModule   tool/preprocess/preprocess.go: findModule
--   Preprocess/BuildArgs    tool/preprocess/preprocess.go: runDryBuild, runBuildWithToolexec
--   Preprocess/Backup       tool/preprocess/preprocess.go: backupFile, restoreBackupFiles;
--                           tool/preprocess/rectify.go: the loop of rectifyMod that backs up;
--                           tool/util/util.go: CopyFile, WriteFile
--   Preprocess/Replace      tool/preprocess/preprocess.go: addModReplace; rectify.go: its map
--   Preprocess/Importer     tool/preprocess/preprocess.go: the text that newRuleImporterWith writes
--   Preprocess/Rectify      tool/preprocess/rectify.go: rectifyRule
--   Preprocess/Rounds       tool/preprocess/preprocess.go: Preprocess, newRuleImporterWith,
--                           refreshDeps, postProcess; match.go: matchRules; rectify.go: rectifyMod
--   Preprocess/Init         tool/preprocess/preprocess.go: init, initMod, findMainDir, findGoMod,
--                           initBuildMode
--   Preprocess/Command      tool/preprocess/preprocess.go: Preprocess from its start
--   Preprocess/Steps        what a step of these does to files and backups
--   Instrument/Order        tool/instrument/inst_func.go: sortFuncRules
--   Instrument/Body         tool/instrument/inst_func.go: insertTJump, findJumpPoint, insertRaw, and
--                           the loop of applyFuncRules over the rules of a function
--   Instrument/Signature    tool/instrument/trampoline.go: the parameter lists of the trampolines and
--                           the arguments of the calls between jump, trampoline and hook
--   Instrument/CallContext  tool/instrument/trampoline.go: rewriteCallContextImpl, with a run of the
--                           methods it generates
--   Instrument/Template     tool/instrument/template.go; trampoline.go: materializeTemplate
--   Instrument/Trampoline   tool/instrument/trampoline.go: generateTrampoline
--   Instrument/FileRules    tool/instrument/inst_file.go: applyFileRules
--   Instrument/Optimize     tool/instrument/optimize.go: optimizeTJumps and what it calls
--   Instrument/CompileArgs  tool/instrument/instrument.go: replaceCompileArg, relocated files
--   TraceContext            pkg/rules/otel-sdk/trace/otel_trace_context.go
--   Instrumenter/Scopes     pkg/inst-api/utils/scope.go and span_key.go, and the two tables of
--                           pkg/inst-api/instrumenter/span_suppressor.go
--   Instrumenter/Suppressor span_suppressor.go and span_suppression_strategy.go beside it
--   Instrumenter/Internal   pkg/inst-api/instrumenter/instrumenter.go and extractor.go
--   Instrumenter/Builder    pkg/inst-api/instrumenter/instrumenter_builder.go
--   Semconv/Attribute       attribute.KeyValue, and the names of attributes
--   Semconv/Shadow          pkg/inst-api-semconv/instrumenter/utils/metrics_shadower.go
--   Semconv/Net             pkg/inst-api-semconv/instrumenter/net
--   Semconv/Http, Status    pkg/inst-api-semconv/instrumenter/http: http_attrs_extractor.go and
--                           http_span_name_extractor.go; http_status_code_extractor.go
--   Semconv/Metrics         http_metrics.go, rpc_metrics.go and db_metrics.go there
--   Semconv/Rpc, Db         pkg/inst-api-semconv/instrumenter/rpc and db
--   Semconv/Message         pkg/inst-api-semconv/instrumenter/message
--   DatabaseSql/Dsn         pkg/rules/databasesql/databasesql_parser.go
--   DatabaseSql/Calls       pkg/rules/databasesql/setup.go: instrumentStart, instrumentEnd, calOp,
--                           and the steps that its hooks share
--   DatabaseSql/Hooks       the hooks of setup.go
--   DatabaseSql/Statement   pkg/rules/databasesql/databasesql_extractor.go: extractCollection,
--                           extractSQLParams
--   DatabaseSql/SqlCache    pkg/rules/databasesql/sqlcache.go, and the rest of
--                           databasesql_extractor.go
--   DatabaseSql/Getter      pkg/rules/databasesql/databasesql_otel_instrumenter.go
--   NetHttp                 pkg/rules/http: net_http_data_type.go, client_setup.go, and of
--                           net_http_otel_instrumenter.go what concerns clients
--   Base, Samples           shared helpers; the theorems at concrete inputs
-- Files below one of these hold the proofs about it.
--
-- A string is the list of its bytes. A function that may fail returns an `Outcome`: a result, an
-- error with the code of tool/errc/errcode.go, or a panic, which stands for a failed assertion and
-- for an index out of range. A map is a list of entries whose keys differ. Logging is left out. A
-- file system says what comes of writing a path: a copy or a write can fail, and then leaves no file
-- or one that is cut short.
-- Pointers that are nil are `none`. The operations of the tool and of a goroutine's context are
-- functions of the state they change; an instrumenter returns the log of its calls on spans and
-- listeners. Every loop is a structural recursion, so there is no fuel.
--
-- Parameters, since their code is not in the repository: the parser and its syntax tree, package
-- regexp, semver.Compare, packages.Load, the file system's paths, the tracer, and what a rule plugs
-- into an instrumenter; encoding/json is one too, as the list of holders a rule file decodes to.
-- restoreBackupFiles takes the entries of its map as a list, since Go leaves their order open. A run
-- of Preprocess is over a record of what surrounds it (Surroundings): package modfile, the go
-- commands, which may change any file, and the orders that Go leaves open. Its start is over another
-- (Sources): packages.Load, the chain of a directory's parents, and findModCacheDir.
--
-- For database/sql, the SQL parser is a parameter that yields what the type switches of the code
-- read; so are nurl.Parse, the hash of a statement, and the LRU cache, a record of operations and
-- laws. A slice is a value: that append may write into the spare capacity of a slice that others
-- hold is left out.
--
-- Not modelled: running the go command, the JSON files of bundles, what tool/instrument does besides
-- (the struct rules, writing the trampolines' file, the final command), the SDK's own span (span.go,
-- tracer.go), the attributes of AI and the gauges of nacos, the set-up of exporters, the server of
-- net/http, and the hooks for the other libraries.
pub mod Base
pub mod Config
pub mod Util
pub mod Resource
pub mod Match
pub mod Preprocess
pub mod TraceContext
pub mod Samples
pub mod DatabaseSql
pub mod NetHttp
pub mod Semconv
pub mod Instrument
pub mod Instrumenter
