-- ===== src/Service.antt =====
-- The classifier service, packages/classifier-svc/src/classifier_svc: the prompt, the call of the
-- model behind a chat endpoint, and the endpoints of the service itself.
pub mod Clamp
pub mod Span
pub mod Prompt
pub mod Backend
pub mod App
pub mod Life
pub mod Starts
pub mod Extract
pub mod Fits
pub mod Answers
pub mod Composed
pub mod Serves
