-- ===== src/Lib.antt =====
-- json-schema-engine: the interpreter of packages/core, from the registration of schemas and the evaluation
-- state to the keywords of the 2020-12 vocabularies, and the documents of a result.
--
-- An evaluation applies a schema object to a position of the instance, a cursor. The engine
-- (packages/core/src/engine.ts) opens a frame for the records of the schema object, evaluates the keywords
-- that the dialect lists in its order, and merges the frame into the one below where all of them accept.
-- A keyword reaches the engine only through its context: it applies subschemas, compiles patterns,
-- reports errors, annotates, and hands dependency data to other keywords at the same cursor.
--
-- Files and the code they model:
--   Json, Json/*     packages/core/src/json.ts: values, `jsonEqual`, lengths in code points, the
--                    comparisons of doubles, the escapes of JSON Pointer, the search for equal items.
--   Messages, Messages/*
--                    packages/core/src/messages.ts: previews of values, lists of names, runs of indexes.
--   Cursor           packages/core/src/cursor.ts and ref.ts. A cursor carries a number in place of its
--                    identity as an object; the numbers come from a supply in the state.
--   Engine/State, Engine/Operations
--                    `EvalState` of engine.ts as a record, with its methods as functions on it; the frame,
--                    guard and scope stacks have their innermost entry first.
--   Engine/Program   packages/core/src/dialect.ts: `KeywordContext` as a tree of calls, each with the rest
--                    of the keyword as a function of the answer, so that the engine can run a keyword it
--                    knows nothing of; `Dialect`, and `Registry`, which holds what the engine asks of
--                    packages/core/src/registry.ts.
--   Engine/Context   the methods of `KeywordContextImpl`.
--   Engine/Apply     `applySchema`, `applySchemaAtDepth`, `evaluateKeyword`, `runEvaluation`, with
--                    exceptions as results and the state they leave behind.
--   Engine/Fragment  `createFragmentRunner` and `evaluateFragment`, by which compiled code calls back.
--   Engine/Progress, Verdict, Contract, Runs, Fuel, Core, Selection
--                    what is proved of the engine.
--   Keywords/*       packages/core/src/keywords: applicator.ts (InPlace, Object, Array), unevaluated.ts,
--                    validation.ts (Validation, Required), and core.ts and rejects.ts (Schema). An object or
--                    a local variable of a loop is an argument of the loop's function.
--   Keywords/Yields, Keywords/Yields/*
--                    the verdicts of the keywords, where the verdicts of a keyword's own subschemas are
--                    given by an `Oracle` over any function that applies schemas. Tests/Oracles has one
--                    for a document that is registered, and for the engine on its registry.
--   Keywords/Lowered the conditions of the compiled tier against the interpreter's tests.
--   Dialects, Dialects/*
--                    packages/core/src/dialect.ts: `DialectRegistry`, whose maps stand at an address of a
--                    store, so that a snapshot shares them, and the identifier extractors.
--   Coverage         packages/core/src/coverage.ts: the folds that the compiled tier does at run time.
--   Output, Output/Safe
--                    packages/core/src/result.ts.
--   Output/Located, Units, Detailed, Surface, Texts
--                    packages/core/src/output.ts: the tree of applications that documents are rendered from,
--                    the list, hierarchical, detailed, verbose and basic documents, and the public trace. A
--                    tree has a type of its own for the lists of its nodes.
--   Output/Records   packages/core/src/records.ts: the units of the records and the tree of the trace.
--   Output/*/*       what is proved of these.
--   Regex, Regex/Cached
--                    packages/core/src/regex.ts: `RegexCache`.
--   Schemas/Entries, Fallible
--                    maps and sets in the order of insertion; results, and what the registry throws.
--   Schemas/Uri      packages/core/src/uri.ts.
--   Schemas/State, Stage, Walk, Commit, Register
--                    packages/core/src/registry.ts: `SchemaRegistry`. A registration reads the identity of a
--                    document, walks it into a staging, and commits the staging to the indexes.
--   Schemas/Locate, Resolve
--                    the resolution of references, without and with the memos.
--   Schemas/Facts    packages/core/src/keywords: the `analyze` of the keywords of the 2020-12 draft and
--                    of `$recursiveRef`, which the walk follows.
--   Schemas/Tolerant packages/core/src/walk.ts: `walkSchema`, its visitor's calls as a list, and the dialect's
--                    facts as a parameter.
--   Schemas/Calls    any calls of a registry, each at a generation of the dialects.
--   Schemas/Served   the lookups of a registry, at one moment, as what the engine asks.
--   Schemas/*/*      what is proved of these.
--   Tests/*          runs on concrete schemas and arguments.
--
-- Bounds and fuel: `apply_schema` recurses on a number that bounds the nesting of calls, where the source
-- recurses freely and counts its depth. The source throws at `maxDepth`, and `apply_with_backstop` starts
-- with that bound as fuel. With a fuel of at least the bound less the depth the count stops the recursion
-- before the fuel does. Natural numbers are unbounded; a double is its three fields, and a length is
-- compared with it as a multiple of 2 ^ -1074. The walk of a registration takes two more than `maxDepth`
-- as fuel, and so does `walk_schema`; they throw past `maxDepth`, so that the fuel is never spent. Schema
-- nodes carry a number for the document object that they are part of, and their place in it, which stand
-- for their identity; a document shares no part with another one. The evaluation takes the registry as a
-- record of lookups, which `served` fills.
--
-- Not modelled: the URL parser and the percent decoding of the language (parameters), the caches of the
-- registry that only keep an object's identity, regular expressions (a test that the environment gives for
-- each pattern), the building of a message from the lowering IR (a record keeps a template's name and its
-- arguments, and the renderer of errors takes the text as a parameter), the fields of units that
-- `errorParams` and `positions` add, the compiler, and the other caches that only save work. A native
-- stack overflow occurs only as an error that `backstop` turns into the typed one. Keyword values of a
-- shape that the meta-schemas refuse throw wherever the source would misread them. Texts hold no lone
-- surrogates. `multipleOf` is left out.
pub mod Base
pub mod Json
pub mod Messages
pub mod Cursor
pub mod Engine
pub mod Dialects
pub mod Keywords
pub mod Coverage
pub mod Output
pub mod Regex
pub mod Schemas
pub mod Tests
