-- ===== src/Browser.antt =====
-- What the pages use of the browser and of the libraries that the repository does not hold: the
-- result of `new URL(url)`, `Set` and `Map` by strings, notifications, and what a handler does.
pub mod Url
pub mod Sets
pub mod Effects
