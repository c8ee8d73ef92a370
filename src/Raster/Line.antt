-- ===== src/Raster/Line.antt =====
-- The line of runtime/shared/blyt_raster.c: its loop ends at the end point.
pub mod Pixel
pub mod Loop
pub mod Error
pub mod Flat
pub mod Steep
pub mod Ends
pub mod Endless
