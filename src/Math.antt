-- ===== src/Math.antt =====
-- Fixed-point arithmetic: logics/impls/exp_no_err.rs, wad_ray_math.rs and percent_math.rs.
pub mod Exp
pub mod WadRay
pub mod Percent
pub mod Rounding
