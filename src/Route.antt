-- ===== src/Route.antt =====
-- src/turlroute.h and src/turlroute.cpp: the routes of an application, read from its file
-- routes.cfg, the search for the route of a request and the path of an action.
pub mod Directive
pub mod Parse
pub mod Find
pub mod Matching
pub mod Selection
