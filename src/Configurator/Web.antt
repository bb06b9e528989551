-- ===== src/Configurator/Web.antt =====
-- configurator/web/: the local editor. Security has the tests of a request, Session the state of an
-- editing session, Api the calls that a request makes,
-- Request what is asked of a request first,
-- Server the handler of a request.
pub mod Security
pub mod Session
pub mod Api
pub mod Reviewed
pub mod Request
pub mod Server
pub mod Access
pub mod Bootstrap
mod Tests
