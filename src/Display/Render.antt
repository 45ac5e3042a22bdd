-- ===== src/Display/Render.antt =====
-- internal/display/render.go: a picture as drawing operations, in bands of scanlines of the same kind
-- and in tiles that fit a datagram. Coordinates are not negative.
pub mod Tiles
pub mod Bands
pub mod Fits
pub mod Sending
pub mod Showing
pub mod Updates
pub mod Pixels
