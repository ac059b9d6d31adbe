-- ===== src/Lib.antt =====
-- The logic of the Corpershub web client: the TypeScript code under web/src.
--
-- The program is a Next.js client. It keeps a session in the browser, decides which page a visitor
-- may see, and shows forms whose values it checks before it sends them. The parts modelled here:
--
-- * Session models web/src/lib/session.ts: users and sessions as records (`SessionUser`,
--   `SessionState`), `normalize_app_path` for `normalizeAppPath`, `default_app_path_for_user` for
--   `defaultAppPathForUser`, and so for its other functions, each under the source's name.
-- * Shell models the effects of web/src/components/layout/dashboard-shell.tsx: `shell_redirect` is
--   the navigation effect, `sync_session` the two effects that write the profile into the session.
-- * SignIn models web/src/components/forms/login-page-content.tsx: the page behind the sign-in.
-- * Inactivity models web/src/hooks/use-inactivity-timeout.ts: `Timer` holds the states and refs of
--   the hook, `step` is one event.
-- * Api models web/src/lib/api.ts: an `Action` runs on a `World`, which keeps the stored session and
--   the requests sent so far. The server is a part of the `Environment`: a function from the
--   requests before and the one now to a response. The unchecked casts of a response's JSON are
--   parameters, named `as_user` and the like.
-- * Markdown models web/src/components/legal/markdown-renderer.tsx: `round` is one round of the
--   renderer's loop, on the lines that are left.
-- * Chat models web/src/components/dashboard/chat-thread.tsx: `Thread` holds the messages and the
--   composer, `step` is one event.
-- * Billing models web/src/lib/subscriptions.ts and the choices of
--   web/src/components/billing/subscription-billing-page.tsx.
-- * Draft models web/src/components/providers/corper-verification-draft-provider.tsx: `Provider`
--   holds the draft in memory and the item of the session storage.
-- * Mobile models the mobile numbers of web/src/lib/nigerian-validation.ts, and Identifiers the other
--   fields of that file.
-- * Auth models web/src/components/providers/auth-provider.tsx: `Page` is the provider in front of the
--   session store of Api, `run_call` is one call of a component, `sessions_equal` is `sessionsEqual`
--   over a `Printer`, which stands for `===`, `JSON.stringify` and `JSON.parse`.
-- * Verification models web/src/app/corper/verification/page.tsx: the records and the attempts, and,
--   in Verification/Legal, both checks of the draft and what is stored before the legal step.
-- * Agreement models web/src/components/legal/legal-agreement-page.tsx: the submission of the records,
--   in Agreement/Page the page as a state, in Agreement/Messages the message of an error. The server
--   is a function from the calls before and the one now to an answer.
-- * Company models web/src/lib/company-verification.ts with the patterns of Identifiers.
-- * Dropdown models web/src/components/ui/multi-select-dropdown.tsx, and what
--   web/src/components/ui/searchable-select-dropdown.tsx has in common with it.
-- * Payment models web/src/components/billing/billing-status-page.tsx: `Status` holds the states of
--   the page, `poll` takes the answers in their order, `sync_session_user` runs on the provider of Auth
--   and the API client.
-- * Directory models web/src/lib/company-directory.ts, web/src/lib/media.ts and
--   web/src/lib/course-catalog.ts.
-- * Profile models the lists, the values and the payload of web/src/app/company/profile/page.tsx, and
--   CompanyForm the form of web/src/app/company/verification/page.tsx: `FormPage` is the page as a
--   state.
-- * Checkout models web/src/lib/payments.ts, loading the script of the provider as one step, and
--   Verification/Labels models web/src/lib/verification.ts.
--
-- Base holds what they share. A text is a list of UTF-16 code units (`Text`) where the program
-- walks it, and a native `String` where it only compares it. A value that may be null or undefined
-- is an `Option`. Numbers are natural numbers. The loops are recursions on a list, with three
-- exceptions: the loop of the renderer runs for a given number of rounds, since it need not end; the
-- slices of a chat message are made in as many rounds as it has words, since each takes a word; a
-- number is printed in at most one round more than it is large, since each divides it by ten.
--
-- Not modelled: the Django server under api, the markup and styling of the pages, and the browser.
-- Of a file that a part models, the requests that only a page makes and most labels are left out.
mod Base
mod Fixtures
pub mod Session
pub mod Shell
pub mod SignIn
pub mod Inactivity
pub mod Api
pub mod Markdown
pub mod Chat
pub mod Company
pub mod Dropdown
pub mod Agreement
pub mod Billing
pub mod Draft
pub mod Mobile
pub mod Identifiers
pub mod Auth
pub mod Verification
pub mod Directory
pub mod Profile
pub mod Checkout
pub mod CompanyForm
pub mod Payment
