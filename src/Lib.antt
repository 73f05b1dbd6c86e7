-- ===== src/Lib.antt =====
-- Ragbag's web client (ui/v1/src): the state that it keeps in the browser, the session with the server,
-- the tree of collections and the data that it exchanges.
--
-- The parts and how they interact. The generated client ui/v1/src/lib/sdk turns models into JSON and back;
-- each of its requests runs through the middleware of ui/v1/src/lib/api/client.ts, which adds the tokens
-- and, when the server answers 401, has the access token refreshed once for all requests that wait.
-- The stores of ui/v1/src/lib/stores call the API and keep what pages share; the lock hands its token to
-- client.ts, and the dashboard and the spaces hold models of the API.
-- ui/v1/src/lib/components/tree.ts shows the collections that the API delivers as a tree.
--
-- Which file models what:
--   Common            list, option and text helpers of the language: `includes`, `find`, `filter`, texts,
--                     a storage as a list of pairs with the newest first
--   Tree              components/tree.ts: `TreeNode` is the data type `TreeNode`, whose number stands for
--                     the identity of the object; `collectionToTreeNode` is in Tree/Build, all other
--                     functions are in Tree/Defs, under their own names in snake case
--   Client            api/client.ts: the module's variables and the two storages are the record `Client`.
--                     Client/Defs has the operations, Client/Interceptor the middleware, cut where it
--                     awaits the refresh: `post_first` up to there, `post_resume` from there on.
--                     Client/Refresh runs the handlers, the shared promise and the other operations as a
--                     system of steps in any order. Client/Pending is the memory for invites and links
--                     Client/Pipeline is one request from the page to the answer: `authMiddleware` in the
--                     pipeline of sdk/runtime.ts, and the refresh as the call of the API that it is
--                     A token is null or a text; the refresh alone may be given something else by the
--                     server, which is not checked there: `untyped_token`
--   Sdk/Value         JavaScript values, and what sending one as JSON makes of it
--   Sdk/Codec         the forms of which the conversions are made, with `parseDateTime` and
--                     `serializeDateTime` of sdk/runtime.ts
--   Sdk/Models        sdk/models, a file for a file: the interface `XDto` is the record `XDto`,
--                     `instanceOfXDto`, `XDtoFromJSON` and `XDtoToJSON` are `instance_of_x_dto`,
--                     `x_dto_from_json` and `x_dto_to_json`
--   Sdk/Runtime       the rest of sdk/runtime.ts: Runtime/Request has `createFetchParams`, `fetchApi` with its
--                     middleware and `request` of `BaseAPI`, Runtime/Query `querystring`, Runtime/Mime
--                     `isJsonMime`, Runtime/Uri the encoding of texts in addresses
--   Sdk/Apis          sdk/apis, a file for a file: an operation is a record `Operation`, and Apis/Operation has
--                     what the generator writes for each: `…RequestOpts` is `request_opts`, `…Raw` is
--                     `raw`, and the operation itself is `call`. Apis/All lists the operations
--   Stores/Lock       stores/lock.svelte.ts
--   Stores/Preferences stores/preferences.svelte.ts
--   Stores/Spaces     stores/spaces.svelte.ts
--   Stores/Dashboard  stores/dashboard.ts
--   Stores/Toast      stores/toast.svelte.ts
--   Utils/Sort        the language's stable sort by a comparator
--   Utils/Links       utils/links.ts but for `previewImage`, which is in Utils/Images
--   Utils/SignIn      utils/signin.ts, and the hook `beforeLoad` of router.ts
--   Utils/Urls        `getDomain` and `safeUrl` of utils/format.ts
--   Utils/Colors      `colorFor` and `shownName` of utils/format.ts
--
-- Conventions. State is a record that the operations take and return. An operation that awaits is cut there,
-- and what the server answers is an argument (`Reply`). `none` is a thrown error, or null where the source
-- returns null. A storage that is not available throws at every access; where the source catches that, the
-- model has a flag for it. Numbers are natural ones. Times are milliseconds.
--
-- Fuel. The conversions of `CollectionDto`, a model that holds a list of itself, recur on fuel: one for each level
-- of the tree, counted by `depth`; `read_collection` takes the levels of the value that it reads. The digits
-- of a number are written with fuel for more of them than it has. All other loops follow the data.
--
-- Parameters. The calendar of `Date` is the record `Dates` with one law: the text of an instant is read back
-- as that instant. The browser's collator, its parser of addresses and its Unicode tables are the record
-- `Browser` (Utils/Urls), with one law: the collator is an order. The base path of the API is set by the build.
-- The action of a toast is a callback that is only kept.
--
-- What runs in the browser is a function of a world: `fetch` and the middleware are parameters of
-- Sdk/Runtime/Request, and in Client/Pipeline `fetch` is a function of a server's state, and
-- `awaited` is what happens until a refresh that another request began has ended. The record `Platform` has
-- the dates, the text of a date in the language of the user, and the test for a `Blob`. Texts are sequences of
-- code points.
--
-- What is not modelled. In sdk/runtime.ts: the dates without a time, which no model has, the name of a downloaded
-- file, and `withMiddleware`, which nothing calls. In utils: `initials` and `timeAgo` of format.ts, whose
-- texts are cut in halves of characters and written by the browser, ids, legal links, the clipboard and planets. The
-- table of routes in router.ts; the cells of stores/collectionAction.svelte.ts and
-- stores/bookmarkDrag.svelte.ts, which components write and read; the Svelte components, whose logic is in the
-- files above; the download of a backup through the DOM; the server (internal, cmd), which the client sees
-- by its answers; SQL, the OpenAPI document, build files and assets.
pub mod Common
pub mod Tree
pub mod Client
pub mod Sdk
pub mod Stores
pub mod Utils
