-- ===== src/Generator/Tables/Tests.antt =====
-- A run of data-generator/main.py for two orders of one customer, each with the first of two products.
use local_data_platform.Prelude.{ℕ, zero, suc, true, Option, none, some, List, [], ◌∷◌, nat_eq}
use local_data_platform.Generator.{completed, PaymentDraw}
use local_data_platform.Generator.Tables.{Draws, Uuids, Sizes, Constraints}

abbrev first_of : List ℕ → Option ℕ
first_of [] = none
first_of (x ∷ xs) = some x

abbrev with_first : ℕ → Option (List ℕ) → Option (List ℕ)
with_first x none = none
with_first x (some xs) = some (x ∷ xs)

-- The first elements, as a sample.
abbrev first_elements : List ℕ → ℕ → Option (List ℕ)
first_elements ids zero = some []
first_elements [] (suc n) = none
first_elements (x ∷ ids) (suc n) = with_first x (first_elements ids n)

abbrev one_payment : PaymentDraw
one_payment = record {
  single = true;
  retries = 2;
  attempts = λ n. record { status = completed; payment_method = "cash"; minutes = 30 };
}

abbrev draws : Draws
draws = record {
  customer = λ i. ("Ada", "Lovelace", "ada@example.test");
  product = λ i. ("Loom", "Home", 900, 4, true);
  choice = λ i ids. first_of ids;
  order = λ i. (100, "shipped", 77);
  item_count = λ i. 1;
  sample = λ i ids n. first_elements ids n;
  item = λ i product. (3, 500);
  payments = λ i. one_payment;
}

abbrev uuids : Uuids
uuids = record { customer = λ i. i; product = λ i. i; order = λ i. i }

abbrev sizes : Sizes
sizes = record {
  total_products = 2;
  total_customers = 1;
  total_orders = 2;
  customer_batch = 1;
  order_batch = 1;
  item_batch = 2;
  payment_batch = 1;
}

abbrev lenient : Constraints
lenient = record {
  products = λ rows. true;
  customers = λ rows. true;
  orders = λ rows. true;
  order_items = λ rows. true;
  payments = λ rows. true;
  corrected = λ s. true;
}
