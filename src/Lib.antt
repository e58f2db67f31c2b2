-- ===== src/Lib.antt =====
-- Albus Forge turns a person's description of a device into a spec, a parts plan and firmware. This
-- library models the parts of it that decide things.
--
-- Gateway (apps/gateway/src) admits requests. Gateway.RateLimit is rate-limit.ts: `RateLimiter` is a
-- record, its clock an argument of `take`, and `take` returns the limiter after it. Gateway.Streams
-- is `createStreamRegistry` of sse.ts: the registry keeps the variables of every lease that it handed
-- out, so that a lease is a position, and `reserve`, `on_close` and `release` act on the registry.
-- Gateway.ChatStore is chat-store.ts: its queries are functions of the tables of Tables, and each
-- transaction a function from the tables to its result and the tables after it; Cursors has the text
-- of a cursor and the comparison of uuids, Writes `create_build` and `submit_user_message`.
-- Gateway.Events is `streamBuildEvents` of sse.ts: a poll acts on the variables of one connection and
-- reads the store. Gateway.Claims is the claim inside `verifyCode` of auth-store.ts, which moves
-- anonymous builds and their calls to a tenant. Tables is packages/db/src/schema/builds.ts.
--
-- Llm (packages/llm/src) talks to the model. Llm.Types is types.ts and request.ts. Llm.Call and
-- Llm.Call.Loop are call.ts: `call_structured` is the loop over a state of the world, and the
-- provider, the meter, the abort signal, the clock and the schema library are the fields of `Env`.
-- The loop runs on fuel: six rounds, one for each of three reconnections and three answers, are
-- enough whatever the environment does; the call returns, or rejects with what the read of the token
-- ceiling threw. Llm.Tools is tools.ts, whose loop recurs on the iterations left. Llm.Egress is
-- egress.ts, on as many attempts as plan for the budget at 250 ms each. Llm.Pricing is pricing.ts on
-- whole numbers: hundredths of a dollar for prices, millionths for costs. Llm.Meter is meter.ts: the
-- row of a call, and its insert as a function of the tables.
--
-- Intake (apps/intake/src) turns one model answer into the next spec. Intake.Spec is
-- packages/schema/src/spec.ts, Intake.Shapes its regular expressions, Intake.Replies is replies.ts,
-- and Intake.Questions, Intake.Merge and Intake.Decide are decide.ts: `filterQuestions`, `mergePatch`
-- and `decide`. Intake.Turn is turn.ts: `run_turn` over a `Context`, whose operations stand for the
-- scope filter, the templates, the catalogue and `callStructured`. Intake.Handler is `answerLatest`
-- of handler.ts on the tables and a state of the world; Intake.Handler.Writes tells what it leaves.
-- `Spec.parse` and `JSON.stringify` are the fields of `SpecCodec`.
--
-- Matcher (apps/matcher/src) chooses parts and wires them. Matcher.Types is types.ts with what it
-- reads of packages/schema/src, Matcher.Power is power.ts, Matcher.Constraints is `checkParts` of
-- constraints.ts, Matcher.Ports is the backtracking search inside `wire`, and Matcher.Wiring is
-- `wire`. Matcher.Plans, Matcher.Solver and Matcher.Solve are solver.ts, with rank.ts: what a search
-- keeps, the search over profiles and subsets of parts, and `solve` on a parsed input. The runtime
-- range test is a parameter, `runs`. Voltages, currents and times are JavaScript numbers, whose
-- operations are a parameter, `Arith`. A search ends with a value, at the step limit, or where the
-- source would throw a TypeError.
--
-- Prelude holds Boolean tests, lists, string-keyed maps, sorting and the string operations of
-- JavaScript that the parts share.
--
-- The operations that stand for other code are taken to return, with a value or with the outcome
-- that stands for a throw. Ids of builds are uuids, which are compared without regard to case, and
-- the queries of Gateway.ChatStore past `find_owned_build` are given one that it has found.
--
-- Not modelled: the web client, the database itself and everything else that is a call to the network
-- or to the file system; firmware; the job runners; and, in the parts above, timers, logging and
-- floating-point rounding.
pub mod Prelude
pub mod Gateway
pub mod Intake
pub mod Llm
pub mod Matcher
pub mod Tables
