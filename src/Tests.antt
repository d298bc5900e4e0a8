-- ===== src/Tests.antt =====
-- Applications of the theorems at concrete inputs, with a small regexp library, conversions that
-- copy, a small layout and a small Vietnamese engine in place of the parameters.
mod Toys
mod Typing
mod Rules
mod Services
mod Vietnamese
mod Charset
mod Driver
mod Erasing
mod Patterns
