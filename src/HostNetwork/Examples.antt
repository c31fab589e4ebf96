-- ===== src/HostNetwork/Examples.antt =====
-- A host that has addresses in 192.168.0.0/24 and 192.168.2.0/24.
use susentorno.Base.{◌≡◌, refl, none, some, List, [], ◌∷◌}
use susentorno.HostNetwork.Subnets.{
  TakenRange, IsFirst, ip_to_int, prefix_mask, is_subnet_taken, find_from, find_free_subnet,
  validate_subnet, find_free_subnet-IsFirst, find_free_subnet-validate_subnet,
}

abbrev taken : List TakenRange
taken =
    record { network = 3232235520; prefix_length = 24 }
    ∷ record { network = 3232236032; prefix_length = 24 }
    ∷ []

free : find_free_subnet taken ≡ some 1
unfolding find_free_subnet find_from is_subnet_taken ip_to_int prefix_mask
free = refl

find_free_subnet-IsFirst_example : IsFirst taken 0 256 (find_free_subnet taken)
find_free_subnet-IsFirst_example = find_free_subnet-IsFirst taken

find_free_subnet-validate_subnet_example : validate_subnet 1 taken ≡ none
find_free_subnet-validate_subnet_example = find_free_subnet-validate_subnet taken 1 free
