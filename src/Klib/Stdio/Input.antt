-- ===== src/Klib/Stdio/Input.antt =====
-- What sscanf makes of a number.
use mathlib.Core.Option
