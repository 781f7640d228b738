-- ===== src/Lib.antt =====
-- Verification of infra-orch-studio, a console that plans, approves and applies cloud environments.
--
-- The web client (web/src, TypeScript and React) lets a user describe an environment in a wizard,
-- checks the description, shows a review that the server computes, and then plans, approves,
-- applies, retries and destroys the environment through the HTTP API. The server (Go) keeps the
-- environments, with a revision that every change advances, and refuses requests for another
-- revision; a runner works on its jobs. This library models the logic of the client, the handlers of
-- the server that change an environment, and the runner, as far as they share the store.
--
-- Parts:
--   * Api: the types of web/src/api.ts. An optional property is an Option.
--   * Validation: web/src/utils/environmentValidation.ts. Validation.Cidr has the parser of IPv4
--     blocks and the containment tests (`parseIPv4Cidr`, `cidrContains`, ...); Cidr.Blocks, Parsing
--     and RoundTrip have their proofs. Validation.Wizard has `validateEnvironmentSpecForWizard`, one
--     function per group of checks; Wizard.Accepts describes acceptable environments independently,
--     Wizard.Steps is about the messages of each step.
--   * View: web/src/utils/environmentView.ts, one function per function.
--   * Options: web/src/utils/providerCatalogOptions.ts and providerNames.ts.
--   * UiCopy: web/src/utils/uiCopy.ts, on errors, concurrent changes and audit actions.
--   * SpecForm: the inputs of web/src/components/EnvironmentSpecForm.tsx as a data type, and the
--     spec that each of them makes.
--   * Requests: the requests of the clients of web/src/api.ts, each with its method, its path and the
--     answer that it is typed to receive. The encodings of the browser are parameters.
--   * Badge: web/src/components/StatusBadge.tsx.
--   * Create: web/src/pages/CreateEnvironment.tsx as a state (Wizard), events and one step: the
--     handler of the event, then the preview effect if one of its dependencies changed (`settle`).
--     Create.State has the state, Create.Review and Create.Steps the proofs; Create.Providers is the
--     choice of a provider.
--   * Actions: `load`, `runAction` of web/src/pages/EnvironmentDetail.tsx and `run` of
--     ApprovalControl.tsx, as a state (Page), events and one step. An asynchronous function is cut
--     at each `await` into a Phase. A closure is an Attempt, with the environment that it captured; the
--     dialog of the approval page keeps one from the time at which it was opened.
--   * Pages: the other pages of web/src/pages. Users cuts each handler at its requests, so that several
--     run at once (Release, Settle); JobDetail has the answers and the messages of the socket in any
--     order (Live); Environments has the address that keeps the search and the filter (Address);
--     Audit, Dashboard and Jobs count and list; Login, Providers, PlanReview, Catalog (ProviderDetail.tsx and
--     ProviderResourceDetail.tsx) and Templates have their forms, tabs and selections. Fetch is what
--     their loads wait for.
--     Pages.GuidedStart searches an untyped answer: Values has what may stand in it and how it is
--     printed, Search the search, on fuel that bounds how deep it goes; the depth of the answer is
--     enough (Depth). Page has the state and the cards, Cards what they show of the server's answer.
--   * Shell: the routes of web/src/App.tsx, and `apiUrl`, `wsUrl` and `req` of web/src/api.ts.
--     Navigation is the sidebar and the heading, Dialog web/src/components/ConfirmDialog.tsx.
--   * I18n: web/src/i18n.tsx, with the wording in English and Korean, the provider of the language
--     (Provider), and the keys that GuidePanel.tsx takes from the wording (Keys).
--   * Detail: the steps and the hint that the pages show, and the conditions of their buttons;
--     Detail.Load is the state that their actions do not touch.
--   * Server: internal/domain/environment_lifecycle.go, `validateExpectedRevision` of
--     internal/api/environments.go, and internal/validation/environment.go, which normalizes and
--     validates a spec. Server.Validation has its functions, with an `int` as 64 bits, and Server.Go
--     what they call of Go's libraries; Decode is the spec that the server gets from the client.
--     Server.Review has the signals and the summary of internal/api/plan_review.go.
--     Server.Domain has the stored records; Access, Changes and Handlers are
--     internal/api/environments.go, cut into its checks, what it writes, and the handlers. Runner is
--     cmd/runner/main.go. World puts them together with the transactions of
--     internal/storage/mysql/store.go: a step relation in which any number of requests and jobs are
--     under way (Invariant, Kept, Committed, Transactions, Marks, Working, Steps have what holds between
--     steps, Unfinished what follows, Approvals the audit log, Stuck a failure that is not stored).
--     Stranded has two dead ends.
--   * Js: what the client uses of JavaScript. Js.Text is a string as a list of UTF-16 code units;
--     Js.Number a double as a signed multiple of 2 ^ -1074, with the rounding of addition and of
--     conversion; Js.Bits the 32-bit operations; Js.Object an object as a list of entries in the
--     order of insertion; Js.Params is URLSearchParams, and Js.Sort the stable sort.
--   * Common: shared names, Boolean tests, lists, texts and powers. Examples: runs and witnesses.
--
-- Choices: text that the client walks or trims is a Text, other text a String. Everything
-- terminates by structural recursion; the conversion of text to a number and the rounding have no
-- fuel but the length of the text, and only the search of Pages.GuidedStart has fuel as an argument.
-- `toLowerCase` folds ASCII letters only, which is all that the searched phrases have; the searches
-- of the pages find other letters in the same case only. A number that is shown is printed by a
-- parameter `show`, and the locale is a parameter `ko`. Answers of the server are events that may come at any time. The wizard keeps a
-- version of its spec, which stands for the identity of the object, and the requests of its
-- closures, and a preview keeps the request that it answers; the program stores them implicitly or
-- not at all. The effect is taken to run before the next event, as React does after a click. The
-- step in a stored draft is taken to be a natural number, which is what the page stores. In
-- Server.World a step is given the identifiers that it makes, the store refuses one that is taken,
-- and a claim takes any queued job; a revision is a natural number.
--
-- Not modelled: rendering, except that of the dialog; `displayImpactLine` of PlanReview.tsx; the
-- clipboard; dates; the rest of the Go code, and the branch of its handlers for a store without
-- transactions; third_party, which is a copy of another project; deployment files and documents.
pub mod Common
pub mod Js
pub mod Api
pub mod Validation
pub mod View
pub mod Badge
pub mod UiCopy
pub mod Options
pub mod SpecForm
pub mod Requests
pub mod Actions
pub mod Server
pub mod Detail
pub mod Create
pub mod Pages
pub mod Shell
pub mod I18n
mod Examples
