-- ===== src/Testing/Paths.antt =====
-- The tests and the part of a request's path that `FakeSnowflake` reads, on the paths of handles.
use snowflake_sql_api.Common.{
  Text, Bool, true, false, [], ◌∷◌, ◌++◌, ◌≡◌, sym, arith, append-nil, append_assoc, Lacks,
  if◌then◌else◌, text_eq, ◌==◌,
}
use snowflake_sql_api.Transport.Calls.{status_path}

-- `path.endswith(tail)` and `path.startswith(head)`
unfoldable pub starts_with : Text → Text → Bool
starts_with [] path = true
starts_with (c ∷ head) [] = false
starts_with (c ∷ head) (d ∷ path) = if c == d then starts_with head path else false

unfoldable pub ends_with : Text → Text → Bool
ends_with tail [] = text_eq tail []
ends_with tail (c ∷ path) = if text_eq tail (c ∷ path) then true else ends_with tail path

-- `path.rsplit("/", 1)[-1]`: the characters since the last slash.
unfoldable pub last_segment : Text → Text → Text
last_segment part [] = part
last_segment part (c ∷ path) =
    if c == 47 then last_segment [] path else last_segment (part ++ c ∷ []) path

-- The last segment of a handle's path is the handle.
last_segment-Lacks : (part s : Text) → Lacks 47 s → last_segment part s ≡ part ++ s
unfolding last_segment
last_segment-Lacks part [] h = sym (append-nil part)
last_segment-Lacks part (c ∷ s) (p, h) =
    ground (arith, last_segment-Lacks (part ++ c ∷ []) s h, append_assoc part (c ∷ []) s)

pub last_segment-status_path :
    (handle : Text) → Lacks 47 handle → last_segment [] (status_path handle) ≡ handle
unfolding last_segment
last_segment-status_path handle h = last_segment-Lacks [] handle h
