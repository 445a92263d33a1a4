-- ===== src/Monitor/Layout/Tests.antt =====
-- The standard layout, and what the layout theorem says of it.
use bbz_platform.Prelude.{◌≡◌, refl, ok}
use bbz_platform.Monitor.Layout.{standard_layout, validate_layout}

standard_valid : validate_layout standard_layout ≡ ok tt
unfolding validate_layout
standard_valid = refl
