-- ===== src/Lib.antt =====
-- The core of ptv-mcp, a server that lets people and assistants read and change the public service
-- descriptions of PTV (Palvelutietovaranto): people sign in and belong to tenants, assistants are
-- let in by OAuth, changes are checked against PTV's rules, and change proposals are queued,
-- reviewed, approved by another person, and only then written to PTV.
--
-- How the parts interact. The proposal queue and the review campaigns read the roles that the
-- tenants' operations write (role_of), and an approval reads the four-eyes setting
-- (requires_four_eyes); each of the three appends to the audit log. A campaign's items are linked
-- to proposals of the queue. Accounts and OAuth grants have tables of their own, and only their
-- user ids appear in the other parts.
--
-- Parts and files. Paths of code are from the repository's root.
--   World: the database tables that the services use, the clock, the random ids and PTV's content,
--     as one record `World P`; a service call is a function `Call P A = World P → Result A × World
--     P`, and `◌>>=◌` stops at the first error, as `await` does at a throw. World/Tables has the
--     rows (src/db/schema), World/Monad the calls, World/Keeps the rules for reasoning about them.
--   Json: JSON values. Base: lists, strings (lists of UTF-16 code units) and Boolean tests.
--   Roles: ROLE_RANK and the role checks (src/auth/rbac.ts, src/mcp/authorization.ts).
--   Audit: the append-only log (src/audit/auditService.ts).
--   Proposals: Store and Reviewers are ProposalService (src/proposals/proposalService.ts), one
--     function per method; Queue, Candidates and Resolve (View, Actions, Publish) are the tools of
--     src/mcp/proposalQueue.ts; Kinds is the handler interface of src/mcp/proposalKinds.ts. The
--     other children hold what is proved: History (lawful changes of rows), StoreSafety,
--     ReviewerSafety, QueueSafety and ResolveSafety (every operation makes only such changes),
--     Transition and Exclusive (the guarded update), Approval, Details, Outcome, Ptv and Decide
--     (resolving), Verify and Confirm (manual publishing), Eligible, Request, Requested, Waiting,
--     SignOff, Commented (reviews and comments), and Reach (any sequence of calls).
--   Reviews: review campaigns. Store and ItemStore are ReviewService
--     (src/reviews/reviewService.ts); Campaigns, Manage and Items are the operations of
--     src/reviews/reviewCampaigns.ts. They use the proposal store, the audit log and the role
--     checks. Steps, Decided, Fitting, Completed, Progress, Selected, Assigned, Started, Closed,
--     Linked, Linkable and Attached hold what is proved. Reading PTV's content and the match of a
--     proposal's kind with an item are the parameter `ReviewSources`.
--   Paging: the server's paged lists (src/ptv/v11/pagination.ts). The parent reads windows
--     (fetchIdWindow); the client is a function of the page number, and the loop runs on fuel, one
--     more than the page count, which the theorem shows to be enough; without fuel it has no
--     answer. ByIds reads all pages (fetchAllPages) and batches of ids (fetchListByIds), whose loop
--     has one round of fuel per id and one more. Windows has the list lemmas; Window, Pages and
--     Found hold what is proved.
--   Auth: accounts and web sessions, AuthService of src/auth/authService.ts, one function per
--     method in Service (Statements, Sessions, OneTime), over a database of its own (`AuthDb`),
--     which no call shares with the others. Rows, Steps and Later are what single steps keep,
--     Events any sequence of requests; Login, Lockout, Rotation, Reset, Reach, Once and Race hold
--     what is proved. Hashing, random values and signing are `Crypto`.
--   Validation: the rules of src/validation. The parent is the check of business IDs
--     (organizationRules.ts, isValidBusinessCode), its regular expression a list of atoms; Domain
--     has the types of src/ptv/domain.ts, Errors the collected errors (the fields that they name),
--     Patterns the other regular expressions, ServiceRules the V11ChangeValidator, ContactRules and
--     ChannelRules channelRules.ts and validateChannel, OrganizationRules validateOrganization.
--     BusinessCode, NoErrors, Writable, RuleLaws, Accepted, Times, Versions and Organizations hold
--     what is proved.
--   OAuth: OAuthService of src/mcp/oauthService.ts, over its own tables (`OAuthDb`). Addresses is
--     the test of private addresses, Cimd the documents of clients, Tokens the signed tokens,
--     Grants clients, codes and refresh tokens; the loop over redirects counts the redirects left,
--     three at first. Decimals and Outside say which addresses that test lets pass. Exchange, Once
--     (any sequence of requests), Access, Fetched and Mapped hold what is proved. URLs, DNS, HTTP,
--     JSON, hashing and signing are `Platform`.
--   Tenants: TenantService (src/tenants/tenantService.ts), one function per method in Service.
--     Directory is what it promises without its tables: roles, settings and a log; Members and
--     Settings are what searches answer after a write, Implements the refinement.
--
-- How the code's features are represented.
--   - A table is the list of its rows in insertion order; `update_where`, `filter_by` and `find`
--     are the statements' WHERE clauses. One statement is one step, so that an interleaving of two
--     requests is a sequence of such steps.
--   - Errors are constructors of `ServiceError`, without their message texts.
--   - Native numbers stand for dates (milliseconds). Recursion is structural, on lists or, for the
--     paging loops, on fuel.
--   - The handlers of proposal kinds are a parameter, `ProposalKinds P`, with what the queue relies
--     on: they leave the queue's tables alone, append to the audit log at most, and only `apply`
--     changes PTV. Parsing the stored changes is part of the handler.
--   - Random ids, case folding and collation are the record `Platform`.
--   - Row-level security repeats the tenant filter that each statement has, and is left out.
--
-- Not modelled: HTTP routes, the MCP transport, the adapters' requests to PTV, encryption, mail,
-- the web user interface, and the quality report and manual-publishing sheet in a proposal's
-- details.
pub mod Base
pub mod Json
pub mod World
pub mod Roles
pub mod Audit
pub mod Tenants
pub mod Proposals
pub mod Reviews
pub mod Paging
pub mod Validation
pub mod Auth
pub mod OAuth
