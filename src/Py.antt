-- ===== src/Py.antt =====
-- What the program uses of Python's built-in types: exceptions, text, numbers, dictionaries, sorting.
pub mod Text
pub mod Number
pub mod Slice
pub mod Result
pub mod Dict
pub mod TextList
pub mod Order
