-- ===== src/ApiClient.antt =====
-- apiclient/apiclient.go: the client of the accounts API. The metadata server and the API's service
-- are parameters: what they answer.
pub mod Calls
pub mod Instance
pub mod Daemon
