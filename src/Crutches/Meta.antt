-- ===== src/Crutches/Meta.antt =====
-- otasker/crutches.go: fixMeta, which replaces the tags that name another charset.
use iplsgo.Prelude.{List, [], ◌∷◌, Str, bytes}
use iplsgo.Gostd.{replace_all}

-- bMeta; the first and the last are the same.
abbrev pub b_meta : List Str
b_meta =
    bytes "<meta http-equiv=\"Content-Type\" content=\"text/html; charset=windows-1251\">"
    ∷ bytes "<meta http-equiv=Content-Type content=\"text/html; charset=windows-1251\">"
    ∷ bytes "<meta http-equiv=\"CONTENT-TYPE content=\"text/html; charset=windows-1251\">"
    ∷ bytes "<meta http-equiv=\"Content-Type\" content=\"text/html; charset=windows-1251\">"
    ∷ []

abbrev pub b_meta_empty : Str
b_meta_empty = bytes "<meta http-equiv=\"Content-Type\" content=\"text/html; charset=utf-8\">"

abbrev pub replace_each : List Str → Str → Str
replace_each [] content = content
replace_each (old ∷ rest) content = replace_each rest (replace_all content old b_meta_empty)

-- fixMeta
unfoldable pub fix_meta : Str → Str
unfolding replace_all
fix_meta content = replace_each b_meta content
