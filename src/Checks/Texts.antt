-- ===== src/Checks/Texts.antt =====
-- The text functions of Go's strings package on short texts.
use maintainer_cockpit.Prelude.{true, ◌≡◌, refl, trim_space, cut, contains, has_suffix}

spaces_trimmed : trim_space "  a b \n" ≡ "a b"
unfolding trim_space
spaces_trimmed = refl

cut_at_slash : cut b'/' "ab/c/d" ≡ ("ab", "c/d", true)
unfolding cut
cut_at_slash = refl

contains_pulls : contains "repos/x/pulls/3" "/pulls/" ≡ true
unfolding contains
contains_pulls = refl

ends_in_pulls : has_suffix "repos/x/pulls" "/pulls" ≡ true
unfolding has_suffix
ends_in_pulls = refl
