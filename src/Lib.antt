-- ===== src/Lib.antt =====
-- A model of the core of lemmy, a federated link aggregator: the websocket chat server, the rate
-- limiter in front of it, and the operations on comments, posts and communities with the tables that
-- they change.
--
-- A client connects to the chat server and sends texts. The server reads the operation, takes the
-- rate limit of the session's address, and hands the operation to the API. The API checks the
-- caller, changes the database, and tells the chat server, which sends the result to the
-- connections in the rooms that it concerns.
--
-- Chat (lemmy_websocket/src/chat_server.rs, handlers.rs, messages.rs, lib.rs):
--   Chat/Server.antt: `ChatServer`, `startup` and the four joins. A map is an association list.
--   Chat/Send.antt: the broadcasts. What is sent is a list of `Delivery`, in order. A broadcast
--     whose text cannot be serialized is an error after what was sent before it.
--   Chat/Handlers.antt: one function for each `Handler`, and `handle_all` for a run of messages, in
--     the order in which the actor takes them.
--   Chat/Standard.antt: `parse_json_message` and the handler of `StandardMessage`;
--     Chat/Isolation.antt relates it to the limiter.
--   Chat/Rooms.antt, Placement.antt, Joins.antt, Delivery.antt, Broadcasts.antt, Privacy.antt,
--     Captcha.antt, Exactness.antt: lemmas and theorems on these.
--   Chat/Seats.antt: an abstract view of the rooms, in which a connection has one place or none;
--     Chat/Refinement.antt relates it to the server.
-- RateLimit (lemmy_rate_limit/src/rate_limiter.rs, lib.rs):
--   RateLimit/Limiter.antt: the buckets, `insert_ip`, `check_rate_limit_full`. `f64` is the record
--     `Float` of the operations that the limiter uses; times are numbers of nanoseconds.
--   RateLimit/Wrap.antt: `RateLimited::wrap`. The request runs with the lock released, so it is a
--     function of the limiter.
--   RateLimit/Inserts.antt, Buckets.antt, Requests.antt, Allowance.antt: theorems. `Ieee` in
--     Allowance.antt names what they need of `f64`; RateLimit/Whole.antt has integers that satisfy it.
-- Db (lemmy_db/src): Db/Tables.antt has the rows. Db/Comment.antt, Likes.antt, Reports.antt,
--   Access.antt, Post.antt, PostMarks.antt, PostReports.antt, Community.antt and Members.antt have
--   the statements and queries of comment.rs, post.rs, post_report.rs, comment_report.rs,
--   community.rs, moderator.rs and the views; Db/Votes.antt, Saved.antt, Updates.antt, PostVotes.antt
--   and Moderators.antt have lemmas. A statement gives its result and the tables after it, or nothing
--   where PostgreSQL refuses it (a missing row, a key that is there already, a text that is too long).
-- Api (lemmy_api/src/lib.rs, comment.rs, post.rs, community.rs; lemmy_structs/src):
--   Api/Monad.antt: a handler's run. `World` has the tables and what the outside answers to the
--     calls still to come: a missing connection, a refused query, an activity that cannot be sent.
--   Api/Auth.antt: the access checks. Api/Notify.antt: `send_local_notifs`.
--   Api/Comment/Requests.antt, Write.antt, Votes.antt, Reports.antt: the requests and one function
--     for each `Perform` that changes a comment, a vote or a report.
--   Api/Effects.antt, Steps.antt, Checks.antt, Api/Comment/Quiet.antt, Guards.antt, Changes.antt,
--     VoteSteps.antt, Voting.antt, Saving.antt, Resolving.antt: lemmas and theorems. A handler is
--     taken apart by rules that follow its steps.
--   Api/Texts.antt: the checks on titles, slurs and addresses; Api/TextChecks.antt has their lemmas.
--   Api/Post/Requests.antt, Write.antt, Moderate.antt, Votes.antt, Reports.antt: the operations on
--     posts; Guards.antt, Edited.antt, Changes.antt, Moderating.antt, Creating.antt, Conditions.antt,
--     Passes.antt, Voting.antt, Saving.antt, Reporting.antt: lemmas and theorems.
--   Api/Community/Requests.antt, Write.antt, Members.antt: the operations on communities;
--     Guards.antt, Outcomes.antt, Edits.antt, Changes.antt, BanSteps.antt, Bans.antt, Appointing.antt,
--     Silence.antt, Order.antt, Handover.antt, Transfers.antt, Stops.antt: lemmas and theorems.
--   Api/Fair.antt, Api/Comment/Replies.antt, Passes.antt: runs in which nothing goes wrong.
-- Structs.antt has the values that are sent to clients, Prelude.antt the shared helpers.
--
-- Every loop of the source runs over a collection, so every function here is structural recursion
-- on a list, and no fuel is used. Identifiers and sessions are natural numbers; the arithmetic on
-- them is the clock's, which never goes below zero, and the limiter's, which is `f64`.
--
-- Not modelled: the operations on users, private messages and the site, and those that only list
-- posts, comments, communities and reports; the federation, but for the activities that an operation
-- sends; the HTTP server; the SQL views behind sorted lists; settings, mail delivery and the regular
-- expressions. Columns that the modelled code only passes on are left out of the rows of views.
-- The JSON library, the clock, the dates of the time library, the decoding of tokens, the slur filter,
-- the parser of URLs, what other servers tell of a link, the generation of keys and the scraping of
-- mentions are parameters of the definitions that use them.
pub mod Prelude
pub mod Structs
pub mod Chat
pub mod RateLimit
pub mod Db
pub mod Api
