-- ===== src/Lib.antt =====
-- model3d is a Go library for solids and triangle meshes. The files here model its core that does
-- not rest on float arithmetic: sets of triangles with their index, the maps behind them, the
-- marching cubes that turn a solid into triangles, solids with their combinators, unions of boxes,
-- hierarchies of boxes, trees of points, bitmaps, and binary STL files.
--
-- The parts and their files:
-- - GoMap: a built-in Go map. The order in which a loop visits it is the order of its entries, and
--   a theorem about code that ranges over a map is about every order.
-- - Coords: Coord3D and Rect of model3d/coords.go and model3d/shapes.go with Min, Max, InBounds and
--   Contains. The modelled code compares coordinates and does no arithmetic on them, so a float64
--   is its rank among the values that are not NaN; -0 has the rank of 0, as the comparisons see it.
-- - FastMap: model3d/fast_maps.go. `load`, `store`, `delete`, `modify` (Append and Add), `range`
--   and the others are the methods; FastMap/Contract has what a map promises, FastMap/Types the six
--   types of maps with their hashes, FastMap/Plane those of model2d/fast_maps.go. The hash of a
--   point sees the sign of a zero, which `==` does not: a key of those types is a point with the
--   signs of its zeros, and FastMap/Keys carries what is proved of keys on which `==` is identity
--   over to the points without a negative zero. FastMap/Entries is about Range.
-- - Mesh: model3d/mesh.go. `add`, `remove`, `find` and the others are the methods of Mesh; the
--   index from vertices to triangles is a FastMap that is built on its first use. A triangle is a
--   pointer, and a function gives the points that it stands for. The code is written over any
--   points with their `==` and their hash, which are Coord3D with the signs of zeros in the
--   program; the theorems are about points on which `==` is identity, which holds without negative
--   zeros.
-- - Marching: model3d/mc.go. The corners, rotations and cases of a cube; Marching/Table has the
--   lookup table, Marching/Blocks the division of the grid, Marching/Cache the two sample caches,
--   Marching/Scan the ring of caches that are filled ahead.
-- - RectSet: toolbox3d/rect_set.go. A set of boxes that are cut at the planes of one grid.
--   RectSet/Cover, Cuts, Changes and Removal are about the points of a set, Values, Intervals,
--   Grid, GridSteps, Pieces, Exact, Planes, Kept and Inside about its boxes as cells of the grid,
--   Ends and Tight about its planes, and Built about all sets that the operations lead to.
--   RectSet/Solid has Min, Max and rectSetSolid, with proofs in Extents, Halves, Splitting and
--   SolidContains.
-- - CoordTree: model3d/coord_tree.go and model2d/coord_tree.go, one text over the type of points.
--   CoordTree/Build has the branches, CoordTree/Addresses the pointers, CoordTree/Contents the
--   trees that NewCoordTree makes, CoordTree/Search the queries by distance, CoordTree/Knn the list
--   of the nearest points, CoordTree/Whole the trees with the queries, CoordTree/Plane the points
--   of the plane.
-- - Bvh: model3d/bvh.go and model2d/bvh.go, one text over the type of points. Bvh/Members counts
--   the members of lists, Separate, Split and Axes are about splitBounders and bestSplitAxis, Group
--   about GroupBounders, Scores and Density about areaDensityBVHSplit, Tree and Whole about
--   NewBVHAreaDensity, Spaces and Plane have the points of the space and of the plane, Sorting a
--   sort for tests.
-- - Solid: model3d/solid.go and model2d/solid.go, one text over the type of points. Solid/Boxes is
--   about joined boxes, Lawful about the contract of a Solid, Grouped about Optimize, which calls
--   GroupBounders, Mux, Indices and AllContains about the SolidMux, Smooth has SmoothJoin, Sections
--   the solids between the space and the plane, Spaces and Plane the two types of points.
-- - Bitmap: model2d/bitmap.go. The bits of a bitmap; Bitmap/Fill is about the loops that fill one,
--   Flips about FlipX and FlipY, Invert about Invert.
-- - Stl: fileformats/stl.go. The writer and the reader of binary STL files.
--
-- Bounds and fuel: the search for rotations runs on a fuel of its own and the division of a block
-- on a given one; the results below say that they end. newRectSetSolid runs to a depth above the
-- number of boxes, of which each half has fewer, and newCoordTreeSorted to one above the number of
-- points, of which each call takes one out; groupBounders, newBVH, groupedSolidsToSolid and
-- groupedSolidsToSolidMux run to a depth above the number of objects, of which each half has fewer.
-- Indices of cells and lengths are natural numbers, as no operation here reaches the bounds of int.
-- The 64-bit shift in the hash of an edge is cut off.
--
-- Parameters: the float hash of a point with the signs of its zeros, SquaredDist with subtraction
-- and multiplication of floats, the arithmetic of floats in the areas of boxes and in SmoothJoin,
-- the test that a sum of coordinates is finite, `sort.Slice`, `io.Writer`,
-- `essentials.UnorderedDelete` with its documented effect, and the solid as a Boolean function of
-- grid indices.
--
-- Not modelled: the placing of points and the searches along edges (float arithmetic), locks and
-- atomic values (one goroutine at a time uses a mesh), the other file formats and STL as text, the
-- renderer, the numerical methods, the plane versions of the packages but for the maps, the bitmaps,
-- the trees of points, the hierarchies of boxes and the solids; the joins of colliders and of translated
-- solids.
pub mod Base
pub mod GoMap
pub mod Coords
pub mod FastMap
pub mod Mesh
pub mod Marching
pub mod RectSet
pub mod Stl
pub mod Bitmap
pub mod Bvh
pub mod CoordTree
pub mod Solid
