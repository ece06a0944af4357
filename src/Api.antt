-- ===== src/Api.antt =====
-- web/src/lib/api.ts: the types of the REST interface, and one function for each endpoint. A call
-- takes `fetch` as an argument, from the request to what the network answers.
pub mod Types
pub mod Client
