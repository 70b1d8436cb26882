-- ===== src/Cachepath/Examples.antt =====
-- src/ccache.c: a file in the cache.
use memccache.Base.{some, codes, ◌≡◌, refl}
use memccache.Cachepath.{add_levels, get_path_in_cache}
use memccache.Cachepath.Distinct.{get_path_in_cache-distinct}

path_lem :
    get_path_in_cache (codes "/c") 2 (codes "abcd-9") (codes ".o") ≡ some (codes "/c/a/b/cd-9.o")
unfolding get_path_in_cache add_levels
path_lem = refl

get_path_in_cache-distinct_example : codes "abcd-9" ≡ codes "abcd-9"
get_path_in_cache-distinct_example =
    get_path_in_cache-distinct (codes "/c") 2 (codes "abcd-9") (codes "abcd-9") (codes ".o")
      (codes "/c/a/b/cd-9.o") path_lem path_lem
