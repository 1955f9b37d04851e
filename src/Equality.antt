-- ===== src/Equality.antt =====
-- internal/ingress/types_equals.go: whether two configurations are the same, which decides whether
-- NGINX is configured anew. A receiver is a pointer, and a method compares addresses first; where
-- the receiver is the address of a field the method is written for the values, since the pointers
-- are then not nil, and equal addresses hold equal values, which the method accepts.
pub mod Pointers
pub mod Distinct
pub mod Backend
pub mod Parts
pub mod Exact
pub mod Location
pub mod Server
pub mod Configuration
